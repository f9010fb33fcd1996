-- ===== src/RateLimit/Ip/Totals.antt =====
-- ip_limiter.go: what holds of all shards together.
use grok_search_mcp.Base.{
  ℕ, zero, suc, ◌+◌, ◌%◌, ◌≤◌, ◌<◌, ◌≡◌, refl, sym, ◌⊎◌, Bool, false, some, List, [], arith, eqb,
  length, get_elem?, set, length-set,
}
use grok_search_mcp.Base.Keys.{MapKey}
use grok_search_mcp.Base.Assoc.{length-retain-le}
use grok_search_mcp.Base.Every.{get_elem?_total}
use grok_search_mcp.RateLimit.Bucket.{TokenBucket}
use grok_search_mcp.RateLimit.Ip.{
  IpLimiterShard, is_live, cleanup_shard_locked, Served, existing, dedicated, fallback,
}
use grok_search_mcp.Base.{replicate, length-replicate}
use grok_search_mcp.Base.Int.{at_most, positive_or, positive_or-pos}
use grok_search_mcp.Base.Every.{
  Every, get_elem?-Every, set-Every, replicate-Every, sum_of, sum_of-set, sum_of-replicate,
}
use grok_search_mcp.RateLimit.Ip.{
  fnv_hash, fnv_offset_basis, IpLimiter, IpLimiterConfig, tally, cleanup_shard, cleanup_rounds,
  cleanup_next_shards, allow_at, new_ip_limiter, shard_index_for,
}
use grok_search_mcp.RateLimit.Ip.Shards.{IsShard, cleanup-IsShard}
use native.Mathlib.Nat.{mod-eq_of_lt, mod-add-mod}
use grok_search_mcp.Base.Every.{sum_of-ge}
use grok_search_mcp.RateLimit.Ip.Limiter.{
  added, tally_weight, new_token_bucket_total, allow_in_shard_total,
}

abbrev entries_of : {A B : Type 0} → IpLimiterShard A B → ℕ
entries_of s = length s.entries

-- Every shard is valid, the counter is the number of entries in all, and the cursor is in
-- range. The idle time and the rate are positive.
pub record IsValid {A B : Type 0} ⦃e : MapKey A⦄ (l : IpLimiter A B) : Type 0 where
  pub shards : Every (IsShard l.entry_idle_ttl) l.shards
  pub counted : l.current_entries ≡ sum_of entries_of l.shards
  pub has_shard : 0 < length l.shards
  pub ttl_pos : 0 < l.entry_idle_ttl
  pub rate_pos : 0 < l.requests_per_minute
  pub cursor : l.cleanup_cursor < length l.shards

cursor_step :
    (cursor n moved count count' result : ℕ)
    → moved ≡ cursor
    → count' ≡ count
    → result ≡ ((moved + 1) % count' + n) % count'
    → result ≡ (cursor + suc n) % count
cursor_step cursor n moved count count' result same same_count h =
    grind (arith, h, same, same_count, mod-add-mod (cursor + 1) count n)

module _ {A B : Type 0} ⦃e : MapKey A⦄ where
  cleanup_shard_total :
      (l : IpLimiter A B) (i now : ℕ)
      → IsValid l
      → i < length l.shards
      → (m : IpLimiter A B) × (cleanup_shard l i now ≡ some m)
        × IsValid m
        × (length m.shards ≡ length l.shards)
        × (m.cleanup_cursor ≡ l.cleanup_cursor)
  unfolding cleanup_shard cleanup_shard_locked
  cleanup_shard_total l i now v h =
      let (s, found) = get_elem?_total l.shards i h in
      let valid = get_elem?-Every (IsShard l.entry_idle_ttl) l.shards i s v.shards found in
      let s' = (cleanup_shard_locked l.entry_idle_ttl s now).0 in
      let all =
        set-Every (IsShard l.entry_idle_ttl) l.shards i s' v.shards
          (cleanup-IsShard l.entry_idle_ttl s now v.ttl_pos valid) in
      rw found (
        _,
        refl,
        record {
          shards = all;
          counted = omega (
            arith,
            v.counted,
            sum_of-set entries_of l.shards i s s' found,
            sum_of-ge entries_of l.shards i s found,
            length-retain-le (is_live l.entry_idle_ttl now) s.entries,
          );
          has_shard = rw length-set v.has_shard;
          ttl_pos = v.ttl_pos;
          rate_pos = v.rate_pos;
          cursor = rw length-set v.cursor;
        },
        length-set l.shards i s',
        refl,
      )

  cleanup_rounds_total :
      (n : ℕ) (l : IpLimiter A B) (now : ℕ)
      → IsValid l
      → (m : IpLimiter A B) × (cleanup_rounds n l now ≡ some m)
        × IsValid m
        × (m.cleanup_cursor ≡ (l.cleanup_cursor + n) % length l.shards)
  unfolding cleanup_rounds
  cleanup_rounds_total zero l now v = (l, refl, v, grind (arith, v.cursor, mod-eq_of_lt))
  cleanup_rounds_total (suc n) l now v =
      let (m, call, valid, same, kept) = cleanup_shard_total l l.cleanup_cursor now v v.cursor in
      let next : IpLimiter A B = record m {
        cleanup_cursor = (m.cleanup_cursor + 1) % length m.shards;
      } in
      let valid_next : IsValid next = record {
        shards = valid.shards;
        counted = valid.counted;
        has_shard = valid.has_shard;
        ttl_pos = valid.ttl_pos;
        rate_pos = valid.rate_pos;
        cursor = omega (arith, valid.has_shard);
      } in
      let (r, rest, valid_r, moved) = cleanup_rounds_total n next now valid_next in
      rw call (
        r,
        rest,
        valid_r,
        cursor_step (l.cleanup_cursor) n m.cleanup_cursor (length l.shards) (length m.shards)
            r.cleanup_cursor kept same moved,
      )

  -- On a valid limiter a clean-up tick returns without a panic, keeps the limiter valid, and moves
  -- the cursor by the batch size, round the shards.
  pub cleanup_next_shards_total :
      (l : IpLimiter A B) (now : ℕ)
      → IsValid l
      → (m : IpLimiter A B) × (cleanup_next_shards l now ≡ some m)
        × IsValid m
        × (m.cleanup_cursor ≡ (l.cleanup_cursor + l.cleanup_shard_batch_size) % length l.shards)
  unfolding cleanup_next_shards
  cleanup_next_shards_total l now v = cleanup_rounds_total l.cleanup_shard_batch_size l now v

module _ {A : Type 0} ⦃e : MapKey A⦄ (t : TokenBucket) (as16 : A → List ℕ) (hash : List ℕ → ℕ) where
  open t use {Bucket, allow_n}

  -- Whatever the configuration, the limiter is made without a panic, and is valid.
  pub new_ip_limiter-IsValid :
      (c : IpLimiterConfig)
      → (l : IpLimiter A Bucket) × (new_ip_limiter t as16 hash c ≡ some l) × IsValid l
  unfolding new_ip_limiter
  new_ip_limiter-IsValid c =
      let n = positive_or c.shard_count 64 in
      let rate = positive_or-pos c.requests_per_minute 60 (omega arith) in
      let (b, made) =
        new_token_bucket_total t as16 hash (positive_or c.requests_per_minute 60) rate in
      rw made (
        _,
        refl,
        record {
          shards =
              replicate-Every (IsShard (positive_or c.entry_idle_ttl 300_000_000_000)) n _ (record {
                kept = record { unique = tt; bounded = omega arith; counted = refl; tracked = tt };
                watermark = omega arith;
                has_fallback =
                    rw length-replicate (
                      ground
                        (arith, positive_or-pos c.fallback_buckets_per_shard 16 (omega arith)));
              });
          counted =
              let empty : IpLimiterShard A Bucket = record {
                entries = [];
                fallback_limiters =
                    replicate (at_most 1024 (positive_or c.fallback_buckets_per_shard 16)) b;
                maximum_entries = at_most 65536 (positive_or c.maximum_entries_per_shard 2048);
                high_watermark = 0;
                next_expiry_check = 0;
              } in
              sym (sum_of-replicate entries_of n empty refl);
          has_shard = rw length-replicate (positive_or-pos c.shard_count 64 (omega arith));
          ttl_pos = positive_or-pos c.entry_idle_ttl 300_000_000_000 (omega arith);
          rate_pos = rate;
          cursor = rw length-replicate (positive_or-pos c.shard_count 64 (omega arith));
        },
      )

  -- What the counters of a call change, on a limiter whose shards and their total are given.
  tally-IsValid :
      (l : IpLimiter A Bucket) (i removed : ℕ) (served : Served) (s s' : IpLimiterShard A Bucket)
      → IsValid l
      → get_elem? l.shards i ≡ some s
      → IsShard l.entry_idle_ttl s'
      → length s'.entries + removed ≡ length s.entries + added served
      → removed ≤ length s.entries
      → (removed ≡ 0) ⊎ (1 ≤ tally_weight served)
      → IsValid (tally (record l { shards = set l.shards i s' }) removed served)
  unfolding tally
  tally-IsValid l i removed existing s s' v found valid size fewer kind = record {
    shards = set-Every (IsShard l.entry_idle_ttl) l.shards i s' v.shards valid;
    counted = ground (
      arith,
      v.counted,
      sum_of-set entries_of l.shards i s s' found,
      sum_of-ge entries_of l.shards i s found,
      size,
      fewer,
      kind,
    );
    has_shard = rw length-set v.has_shard;
    ttl_pos = v.ttl_pos;
    rate_pos = v.rate_pos;
    cursor = rw length-set v.cursor;
  }
  tally-IsValid l i removed dedicated s s' v found valid size fewer kind = record {
    shards = set-Every (IsShard l.entry_idle_ttl) l.shards i s' v.shards valid;
    counted = omega (
      arith,
      v.counted,
      sum_of-set entries_of l.shards i s s' found,
      sum_of-ge entries_of l.shards i s found,
      size,
      fewer,
      kind,
    );
    has_shard = rw length-set v.has_shard;
    ttl_pos = v.ttl_pos;
    rate_pos = v.rate_pos;
    cursor = rw length-set v.cursor;
  }
  tally-IsValid l i removed (fallback allowed) s s' v found valid size fewer kind = record {
    shards = set-Every (IsShard l.entry_idle_ttl) l.shards i s' v.shards valid;
    counted = omega (
      arith,
      v.counted,
      sum_of-set entries_of l.shards i s s' found,
      sum_of-ge entries_of l.shards i s found,
      size,
      fewer,
      kind,
    );
    has_shard = rw length-set v.has_shard;
    ttl_pos = v.ttl_pos;
    rate_pos = v.rate_pos;
    cursor = rw length-set v.cursor;
  }

  -- On a valid limiter, whose rate is positive, every call of allowAt returns without a panic and leaves a
  -- valid limiter: each shard within its capacity, the counter equal to the number of entries.
  pub ip_allow_at-IsValid :
      (l : IpLimiter A Bucket) (a : A) (now : ℕ)
      → IsValid l
      → (x : Bool × IpLimiter A Bucket) × (allow_at t as16 hash l a now ≡ some x) × IsValid x.1
  unfolding allow_at shard_index_for
  ip_allow_at-IsValid l a now v =
      let n = length l.shards in
      let i = fnv_hash fnv_offset_basis (as16 a) % n in
      let nonzero : eqb n 0 ≡ false = ground (arith, v.has_shard) in
      let (s, found) = get_elem?_total l.shards i (omega (arith, v.has_shard)) in
      let valid = get_elem?-Every (IsShard l.entry_idle_ttl) l.shards i s v.shards found in
      let (x, call, valid', size, fewer, kind) =
        allow_in_shard_total t as16 hash l.entry_idle_ttl l.requests_per_minute s a now v.ttl_pos
          v.rate_pos valid in
      rw (nonzero, found, call)
        (_, refl, tally-IsValid l i x.2 x.3 s x.1 v found valid' size fewer kind)
