-- ===== src/RateLimit/Ip/Limiter.antt =====
-- ip_limiter.go: every call keeps the limiter valid, and returns.
use grok_search_mcp.Base.{
  ℕ, zero, suc, ◌+◌, ◌%◌, ◌≤◌, ◌<◌, ◌≡◌, refl, ◌⊎◌, inl, inr, Bool, false, none, some, List, arith,
  ltb, eqb, length, length-set, Bool-cases, Option-cases, ltb→lt,
}
use grok_search_mcp.Base.Keys.{MapKey}
use grok_search_mcp.Base.Assoc.{lookup, length-insert_new, length-insert_old}
use grok_search_mcp.Base.Every.{get_elem?_total}
use grok_search_mcp.Base.Registry.{insert_old-IsKept, insert_new-IsKept}
use grok_search_mcp.RateLimit.Bucket.{TokenBucket}
use grok_search_mcp.RateLimit.Ip.{
  IpEntry, IpLimiterShard, expiry_of, record_potential_expiry, make_room, allow_existing, admit,
  allow_fallback, allow_in_shard, fallback_bucket_index_for, Served, existing, dedicated, fallback,
  new_token_bucket,
}
use grok_search_mcp.RateLimit.Ip.Shards.{
  IsShard, make_room-IsShard, make_room-absent, make_room-removed,
}

-- The entries that a call adds.
abbrev pub added : Served → ℕ
added existing = 0
added dedicated = 1
added (fallback allowed) = 0

-- 0 for the calls that never remove an entry.
abbrev pub tally_weight : Served → ℕ
tally_weight existing = 0
tally_weight dedicated = 1
tally_weight (fallback allowed) = 1

module _ {A : Type 0} ⦃e : MapKey A⦄ (t : TokenBucket) (as16 : A → List ℕ) (hash : List ℕ → ℕ) where
  open t use {Bucket, allow_n}

  pub new_token_bucket_total :
      (rpm : ℕ) → 0 < rpm → (b : Bucket) × (new_token_bucket t as16 hash rpm ≡ some b)
  unfolding new_token_bucket
  new_token_bucket_total zero rate = absurd (omega arith)
  new_token_bucket_total (suc n) rate = (_, refl)

  allow_existing-IsShard :
      (ttl : ℕ) (s : IpLimiterShard A Bucket) (a : A) (x : IpEntry Bucket) (now : ℕ)
      → 0 < ttl
      → IsShard ttl s
      → lookup a s.entries ≡ some x
      → IsShard ttl (allow_existing t as16 hash ttl s a x now).1
        × (length (allow_existing t as16 hash ttl s a x now).1.entries ≡ length s.entries)
  unfolding allow_existing record_potential_expiry
  allow_existing-IsShard ttl s a x now pos v found =
      let y : IpEntry Bucket = record { limiter = (allow_n x.limiter now 1).1; last_seen = now } in
      let k =
        insert_old-IsKept (expiry_of ttl) s.entries s.maximum_entries (length s.entries)
          s.next_expiry_check a y x (now + ttl) found refl (omega arith) v.kept in
      let same = length-insert_old a y x s.entries found in
      (
        record {
          kept = record {
            unique = k.unique;
            bounded = k.bounded;
            counted = refl;
            tracked = k.tracked;
          };
          watermark = omega (arith, same, v.watermark);
          has_fallback = v.has_fallback;
        },
        same,
      )

  admit-IsShard :
      (ttl : ℕ) (b : Bucket) (s : IpLimiterShard A Bucket) (a : A) (now : ℕ)
      → 0 < ttl
      → IsShard ttl s
      → lookup a s.entries ≡ none
      → length s.entries < s.maximum_entries
      → IsShard ttl (admit t as16 hash ttl b s a now).1
        × (length (admit t as16 hash ttl b s a now).1.entries ≡ suc (length s.entries))
  unfolding admit record_potential_expiry
  admit-IsShard ttl b s a now pos v absent room =
      let y : IpEntry Bucket = record { limiter = (allow_n b now 1).1; last_seen = now } in
      let k =
        insert_new-IsKept (expiry_of ttl) s.entries s.maximum_entries (length s.entries)
          s.next_expiry_check a y (now + ttl) absent room refl (omega arith) v.kept in
      let more = length-insert_new a y s.entries absent in
      (
        record {
          kept = record {
            unique = k.unique;
            bounded = k.bounded;
            counted = refl;
            tracked = k.tracked;
          };
          watermark = ground (arith, more, v.watermark);
          has_fallback = v.has_fallback;
        },
        more,
      )

  allow_fallback_total :
      (ttl : ℕ) (s : IpLimiterShard A Bucket) (a : A) (now : ℕ)
      → IsShard ttl s
      → (x : Bool × IpLimiterShard A Bucket) × (allow_fallback t as16 hash s a now ≡ some x)
        × IsShard ttl x.1
        × (length x.1.entries ≡ length s.entries)
  unfolding allow_fallback fallback_bucket_index_for
  allow_fallback_total ttl s a now v =
      let n = length s.fallback_limiters in
      let (b, found) =
        get_elem?_total s.fallback_limiters (hash (as16 a) % n) (omega (arith, v.has_fallback)) in
      let nonzero : eqb n 0 ≡ false = ground (arith, v.has_fallback) in
      rw (nonzero, found)
        (
          _,
          refl,
          record {
            kept = v.kept;
            watermark = v.watermark;
            has_fallback = rw length-set v.has_fallback;
          },
          refl,
        )

  -- A call on the shard of an address returns, keeps the shard valid, and changes its size by what
  -- it reports.
  pub allow_in_shard_total :
      (ttl rpm : ℕ) (s : IpLimiterShard A Bucket) (a : A) (now : ℕ)
      → 0 < ttl
      → 0 < rpm
      → IsShard ttl s
      → (x : Bool × IpLimiterShard A Bucket × ℕ × Served) × (allow_in_shard t as16 hash ttl rpm s a
            now
          ≡ some x)
        × IsShard ttl x.1
        × (length x.1.entries + x.2 ≡ length s.entries + added x.3)
        × (x.2 ≤ length s.entries)
        × ((x.2 ≡ 0) ⊎ (1 ≤ tally_weight x.3))
  unfolding allow_in_shard
  allow_in_shard_total ttl rpm s a now pos rate v = elim (Option-cases (lookup a s.entries)) [
    | inr (x, found) ↦
        let (valid, same) = allow_existing-IsShard ttl s a x now pos v found in
        rw (found, allow_in_shard) (_, refl, valid, omega (arith, same), omega arith, inl refl)
    | inl absent ↦
        let room = (make_room ttl s now).0 in
        let valid = make_room-IsShard ttl s now pos v in
        let still = make_room-absent ttl s now a absent in
        let removed = make_room-removed ttl s now in
        elim (Bool-cases (ltb (length room.entries) room.maximum_entries)) [
          | inl free ↦
              let (b, made) = new_token_bucket_total rpm rate in
              let (valid', more) =
                admit-IsShard ttl b room a now pos valid still (ltb→lt _ _ free) in
              rw (absent, allow_in_shard, free, made)
                (
                  _,
                  refl,
                  valid',
                  omega (arith, more, removed),
                  omega (arith, removed),
                  inr (omega arith),
                )
          | inr full ↦
              let (x, call, valid', same) = allow_fallback_total ttl room a now valid in
              rw (absent, allow_in_shard, full, call)
                (
                  _,
                  refl,
                  valid',
                  omega (arith, same, removed),
                  omega (arith, removed),
                  inr (omega arith),
                )
        ]
  ]
