-- ===== src/RateLimit/Ip/Tests.antt =====
-- The IP limiter on concrete inputs: addresses are numbers, a bucket is the number of its tokens.
use grok_search_mcp.Base.{ℕ, ◌+◌, ◌%◌, ◌≡◌, refl, subst, Bool, some, List, [], ◌∷◌, arith, length}
use grok_search_mcp.Base.Int.{pos, negsuc, positive_or}
use grok_search_mcp.Base.Keys.{nat_key}
use grok_search_mcp.Base.Assoc.{lookup}
use grok_search_mcp.RateLimit.User.Tests.{counting}
use grok_search_mcp.RateLimit.Ip.{
  IpEntry, IpLimiterShard, IpLimiterConfig, IpLimiter, new_token_bucket, new_ip_limiter, allow_at,
  cleanup_next_shards,
}
use grok_search_mcp.RateLimit.Ip.Shards.{IsShard}
use grok_search_mcp.RateLimit.Ip.Totals.{
  IsValid, new_ip_limiter-IsValid, ip_allow_at-IsValid, cleanup_next_shards_total,
}

abbrev bytes_of : ℕ → List ℕ
bytes_of a = a ∷ []

abbrev first_byte : List ℕ → ℕ
first_byte bs = 0

abbrev small : IpLimiterConfig
small = record {
  requests_per_minute = pos 2;
  shard_count = pos 2;
  entry_idle_ttl = pos 50;
  cleanup_interval = negsuc 0;
  cleanup_shard_batch_size = pos 1;
  maximum_entries_per_shard = pos 1;
  fallback_buckets_per_shard = pos 1;
}

abbrev empty_shard : IpLimiterShard ℕ ℕ
empty_shard = record {
  entries = [];
  fallback_limiters = 2 ∷ [];
  maximum_entries = 1;
  high_watermark = 0;
  next_expiry_check = 0;
}

abbrev fresh : IpLimiter ℕ ℕ
fresh = record {
  requests_per_minute = 2;
  shards = empty_shard ∷ empty_shard ∷ [];
  entry_idle_ttl = 50;
  cleanup_shard_batch_size = 1;
  cleanup_cursor = 0;
  current_entries = 0;
  dedicated_admissions = 0;
  expired_entries_removed = 0;
  fallback_requests = 0;
  fallback_rejections = 0;
}

fresh_made : new_ip_limiter counting bytes_of first_byte small ≡ some fresh
unfolding new_ip_limiter new_token_bucket positive_or
fresh_made = refl

fresh-IsValid : IsValid fresh
fresh-IsValid =
    let (l, made, v) = new_ip_limiter-IsValid counting bytes_of first_byte small in
    let same : l ≡ fresh = let found = fresh_made in cc in subst (λ x. IsValid x) same v

ip_allow_at-IsValid_example :
    (x : Bool × IpLimiter ℕ ℕ) × (allow_at counting bytes_of first_byte fresh 5 100 ≡ some x)
    × IsValid x.1
ip_allow_at-IsValid_example =
    ip_allow_at-IsValid counting bytes_of first_byte fresh 5 100 fresh-IsValid

cleanup_next_shards_total_example :
    (m : IpLimiter ℕ ℕ) × (cleanup_next_shards fresh 100 ≡ some m)
    × IsValid m
    × (m.cleanup_cursor
        ≡ (fresh.cleanup_cursor + fresh.cleanup_shard_batch_size) % length fresh.shards)
cleanup_next_shards_total_example = cleanup_next_shards_total fresh 100 fresh-IsValid

abbrev old_entry : IpEntry ℕ
old_entry = record { limiter = 1; last_seen = 100 }

abbrev full_shard : IpLimiterShard ℕ ℕ
full_shard = record {
  entries = (5, old_entry) ∷ [];
  fallback_limiters = 2 ∷ [];
  maximum_entries = 1;
  high_watermark = 1;
  next_expiry_check = 150;
}

full_shard-IsShard : IsShard 50 full_shard
unfolding lookup
full_shard-IsShard = record {
  kept = record {
    unique = (refl, tt);
    bounded = omega arith;
    counted = refl;
    tracked = ((omega arith, omega arith), tt);
  };
  watermark = omega arith;
  has_fallback = omega arith;
}
