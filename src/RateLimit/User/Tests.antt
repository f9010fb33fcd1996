-- ===== src/RateLimit/User/Tests.antt =====
-- The user limiter on concrete inputs, with a token bucket that counts.
use grok_search_mcp.Base.{
  ℕ, ◌-◌, ◌≤◌, ◌≡◌, refl, String, Bool, true, [], ◌∷◌, arith, Option, none, some, ltb, get_elem?,
  if◌then◌else◌, length, leb, ◌≢◌,
}
use grok_search_mcp.Base.Int.{pos}
use grok_search_mcp.Base.Keys.{string_key, ne_of_beq}
use grok_search_mcp.Base.Assoc.{lookup, insert, retain}
use grok_search_mcp.Http.{Context}
use grok_search_mcp.RateLimit.Bucket.{TokenBucket}
use grok_search_mcp.RateLimit.User.{
  UserEntry, FallbackBucket, UserLimiter, make_room, allow_at, expiry_of, admit, allow_fallback,
  shared_bucket, fallback_bucket_index, limit_for, record_potential_expiry, cleanup_expired_entries,
}
use grok_search_mcp.RateLimit.User.Bounds.{IsValid, allow_at-IsValid}
use grok_search_mcp.RateLimit.User.Expiry.{make_room_exact, allow_at_others}
use grok_search_mcp.RateLimit.User.Sharing.{IsDescent, allow_at_shared}

-- A bucket is the number of tokens that are left.
abbrev pub counting : TokenBucket
counting = record {
  Limit = ℕ;
  Bucket = ℕ;
  every = λ interval. interval;
  new_limiter = λ limit burst. burst;
  allow_n = λ bucket now n. (leb n bucket, bucket - n);
  set_limit_at = λ bucket now limit. bucket;
  set_burst_at = λ bucket now burst. if leb burst bucket then burst else bucket;
}

abbrev first_bucket : String → ℕ
first_bucket s = 0

-- A full registry of one entry, that of "ann", and one shared bucket at two requests a minute.
abbrev ann : UserEntry ℕ
ann = record { limiter = 1; rpm = 2; last_seen = 100 }

abbrev shared : FallbackBucket ℕ
shared = record { limiter = some 2; rpm = 2; last_seen = 100 }

abbrev full : UserLimiter ℕ
full = record {
  entries = ("ann", ann) ∷ [];
  fallback_buckets = shared ∷ [];
  maximum_entries = 1;
  entry_idle_ttl = 50;
  next_expiry_check = 150;
  current_entries = 1;
  dedicated_admissions = 1;
  expired_entries = 0;
  fallback_requests = 0;
  fallback_rejections = 0;
  cleanup_interval = 10;
}

full-IsValid : IsValid full
unfolding lookup
full-IsValid = record {
  unique = (refl, tt);
  bounded = omega arith;
  counted = refl;
  tracked = ((omega arith, omega arith), tt);
  ttl_pos = omega arith;
  has_fallback = omega arith;
}

-- "bob" finds the registry full, and uses the shared bucket at its lower rate.
after_bob : UserLimiter ℕ
after_bob = record full {
  fallback_buckets = record { limiter = some 1; rpm = 2; last_seen = 120 } ∷ [];
  fallback_requests = 1;
}

abbrev bob_call : Option (Bool × UserLimiter ℕ)
bob_call = allow_at counting first_bucket full "bob" 9 120

bob_call_lem : bob_call ≡ some (true, after_bob)
unfolding allow_at lookup make_room allow_fallback fallback_bucket_index shared_bucket after_bob
bob_call_lem = refl

-- Once "ann" has expired "bob" takes the place.
bob_later : Option ℕ
bob_later = elim (allow_at counting first_bucket full "bob" 9 150) [
  | none ↦ none
  | some (allowed, l) ↦ elim (lookup "bob" l.entries) [ none ↦ none | some e ↦ some e.limiter ]
]

bob_later_lem : bob_later ≡ some 8
unfolding allow_at lookup insert retain make_room cleanup_expired_entries admit limit_for bob_later
    record_potential_expiry
bob_later_lem = refl

allow_at-IsValid_example :
    (x : Bool × UserLimiter ℕ) × (allow_at counting first_bucket full "bob" 9 120 ≡ some x)
    × IsValid x.1
allow_at-IsValid_example =
    allow_at-IsValid counting first_bucket full "bob" 9 120 full-IsValid (omega arith)

make_room_exact_example : (make_room full 120).entries ≡ (
    if leb full.maximum_entries (length full.entries)
    then retain (λ e. ltb 120 (expiry_of full e)) full.entries
    else full.entries)
make_room_exact_example = make_room_exact full 120 full-IsValid

bob≢ann : ◌≢◌ {A = String} "bob" "ann"
bob≢ann = ne_of_beq "bob" "ann" refl

allow_at_others_example : lookup "ann" after_bob.entries ≡ some ann
unfolding lookup
allow_at_others_example =
    allow_at_others counting first_bucket full "bob" "ann" 9 120 ann (true, after_bob) bob≢ann refl
      (omega arith) bob_call_lem

-- A counting bucket that descends from another has no more tokens.
abbrev FewerTokens : ℕ × ℕ → ℕ × ℕ → Type 0
FewerTokens b c = c.0 ≤ b.0

FewerTokens-IsDescent : IsDescent counting FewerTokens
FewerTokens-IsDescent = record {
  same = λ b. omega arith;
  takes = λ b c rpm now n h. omega arith;
  lowers = λ b c rpm now n less h. ground arith;
}

allow_at_shared_example :
    (g : FallbackBucket ℕ) × (c : ℕ) × (get_elem? after_bob.fallback_buckets 0 ≡ some g)
    × (g.limiter ≡ some c)
    × FewerTokens (2, 2) (c, g.rpm)
    × (g.rpm ≤ 2)
allow_at_shared_example =
    allow_at_shared counting first_bucket FewerTokens full "bob" 9 120 0 shared 2 (true, after_bob)
      FewerTokens-IsDescent refl refl (omega arith) bob_call_lem

abbrev bob_request : Context
bob_request = record {
  tool_name = some "grok_web_search";
  user = some (record { id = "bob"; rpm = pos 9; success_limit = pos 0 });
}
