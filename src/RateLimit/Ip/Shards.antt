-- ===== src/RateLimit/Ip/Shards.antt =====
-- ip_limiter.go: what holds of one shard, and that every call keeps it.
use grok_search_mcp.Base.{
  ℕ, ◌+◌, ◌-◌, ◌≤◌, ◌<◌, ◌≡◌, refl, inl, inr, ◌&&◌, ◌||◌, none, arith, ltb, leb, eqb, if◌then◌else◌,
  length, Bool-cases,
}
use grok_search_mcp.Base.Keys.{MapKey}
use grok_search_mcp.Base.Assoc.{lookup, retain, lookup-retain-none, length-retain-le}
use grok_search_mcp.Base.Registry.{IsKept, retain-IsKept, retain_early}
use grok_search_mcp.RateLimit.Ip.{
  IpLimiterShard, expiry_of, is_live, cleanup_shard_locked, make_room,
}

-- A shard keeps within its capacity, its next expiry check is no later than any expiry, its high
-- watermark is never below its size, and it has a shared bucket.
pub record IsShard {A B : Type 0} ⦃e : MapKey A⦄ (ttl : ℕ) (s : IpLimiterShard A B) : Type 0 where
  pub kept :
      IsKept (expiry_of ttl) s.entries s.maximum_entries (length s.entries) s.next_expiry_check
  pub watermark : length s.entries ≤ s.high_watermark
  pub has_fallback : 0 < length s.fallback_limiters

module _ {A B : Type 0} ⦃e : MapKey A⦄ (ttl : ℕ) (s : IpLimiterShard A B) (now : ℕ) where
  pub cleanup-IsShard : 0 < ttl → IsShard ttl s → IsShard ttl (cleanup_shard_locked ttl s now).0
  unfolding cleanup_shard_locked
  cleanup-IsShard pos v =
      let k =
        retain-IsKept (expiry_of ttl) s.entries s.maximum_entries (length s.entries)
          s.next_expiry_check (is_live ttl now) (λ x. omega arith) v.kept in
      record {
        kept = record {
          unique = k.unique;
          bounded = k.bounded;
          counted = refl;
          tracked = k.tracked;
        };
        watermark = ground (arith, length-retain-le (is_live ttl now) s.entries, v.watermark);
        has_fallback = v.has_fallback;
      }

  pub make_room-IsShard : 0 < ttl → IsShard ttl s → IsShard ttl (make_room ttl s now).0
  unfolding make_room
  make_room-IsShard pos v =
      elim (Bool-cases (
        leb s.maximum_entries (length s.entries)
        && (eqb s.next_expiry_check 0 || ltb s.next_expiry_check now))) [
          | inl cleans ↦ rw cleans (cleanup-IsShard pos v)
          | inr skips ↦ rw skips v
        ]

  pub make_room-absent :
      (a : A) → lookup a s.entries ≡ none → lookup a (make_room ttl s now).0.entries ≡ none
  unfolding make_room cleanup_shard_locked
  make_room-absent a h = ground (arith, lookup-retain-none a (is_live ttl now) s.entries h)

  -- The number removed is the difference in size.
  pub make_room-removed :
      length (make_room ttl s now).0.entries + (make_room ttl s now).1 ≡ length s.entries
  unfolding make_room cleanup_shard_locked
  make_room-removed = ground (arith, length-retain-le (is_live ttl now) s.entries)

  -- On a valid shard making room removes, at capacity, exactly the entries that have been idle for
  -- longer than the limit, also where it skips the scan, and otherwise nothing.
  pub shard_make_room_exact :
      IsShard ttl s
      → (make_room ttl s now).0.entries ≡ (
          if leb s.maximum_entries (length s.entries)
          then retain (is_live ttl now) s.entries
          else s.entries)
  unfolding make_room cleanup_shard_locked is_live
  shard_make_room_exact v = elim (Bool-cases (ltb s.next_expiry_check now)) [
    | inl due ↦ ground arith
    | inr ahead ↦
        let same =
          retain_early (expiry_of ttl) s.entries s.maximum_entries (length s.entries)
            s.next_expiry_check (λ x. leb (now - ttl) x.last_seen) (λ x h. ground arith) v.kept in
        ground (arith, same)
  ]
