-- ===== src/RateLimit/User/Expiry.antt =====
-- user_limiter.go: the scan that `allowAt` skips while `nextExpiryCheck` lies ahead.
use grok_search_mcp.Base.{
  ℕ, ◌+◌, ◌<◌, ◌≡◌, inl, inr, String, Bool, true, arith, ltb, leb, eqb, if◌then◌else◌, length,
  Bool-cases, some, Option-cases, ◌≢◌,
}
use grok_search_mcp.Base.Keys.{string_key}
use grok_search_mcp.Base.Assoc.{
  lookup, retain, AllValues-map, retain_all, lookup-retain_kept, lookup-insert_ne,
}
use grok_search_mcp.Base.Expiry.{Tracked}
use grok_search_mcp.RateLimit.Bucket.{TokenBucket}
use grok_search_mcp.RateLimit.User.{
  UserEntry, UserLimiter, expiry_of, cleanup_expired_entries, make_room, allow_existing, admit,
  allow_fallback, allow_at, record_potential_expiry, retune,
}
use grok_search_mcp.RateLimit.User.Bounds.{IsValid}

module _ {B : Type 0} where
  none_expired :
      (l : UserLimiter B) (now : ℕ)
      → IsValid l
      → now < l.next_expiry_check
      → retain (λ e. ltb now (expiry_of l e)) l.entries ≡ l.entries
  none_expired l now v h =
      retain_all (λ e. ltb now (expiry_of l e)) l.entries
        (AllValues-map (λ e. Tracked l.next_expiry_check (expiry_of l e))
          (λ e. ltb now (expiry_of l e) ≡ true) l.entries (λ e t. ground arith) v.tracked)

  -- On a valid registry making room removes exactly the entries that have expired by now whenever
  -- the registry is full, also where the expiry check lets it skip the scan; below its capacity it
  -- removes nothing.
  pub make_room_exact :
      (l : UserLimiter B) (now : ℕ)
      → IsValid l
      → (make_room l now).entries ≡ (
          if leb l.maximum_entries (length l.entries)
          then retain (λ e. ltb now (expiry_of l e)) l.entries
          else l.entries)
  unfolding make_room cleanup_expired_entries
  make_room_exact l now v = elim (Bool-cases (leb l.next_expiry_check now)) [
    | inl due ↦ ground arith
    | inr ahead ↦ ground (arith, none_expired l now v (ground arith))
  ]

  make_room_keeps :
      (l : UserLimiter B) (now : ℕ) (j : String) (e : UserEntry B)
      → lookup j l.entries ≡ some e
      → now < expiry_of l e
      → lookup j (make_room l now).entries ≡ some e
  unfolding make_room cleanup_expired_entries
  make_room_keeps l now j e found live =
      ground (arith, lookup-retain_kept j (λ x. ltb now (expiry_of l x)) e l.entries found)

module _ (t : TokenBucket) where
  open t use {Bucket, allow_n}

  allow_existing_others :
      (l : UserLimiter Bucket) (user_id j : String) (own : UserEntry Bucket) (rpm now : ℕ)
      (x : Bool × UserLimiter Bucket)
      → user_id ≢ j
      → allow_existing t l user_id own rpm now ≡ some x
      → lookup j x.1.entries ≡ lookup j l.entries
  unfolding allow_existing record_potential_expiry
  allow_existing_others l user_id j own rpm now x other call =
      elim (Option-cases
        (if eqb own.rpm rpm then some own.limiter else retune t own.limiter rpm now)) [
          | inl panics ↦ ground arith
          | inr (b, used) ↦
              let v : UserEntry Bucket = record {
                limiter = (allow_n b now 1).1;
                rpm = rpm;
                last_seen = now;
              } in
              ground (arith, lookup-insert_ne user_id j v l.entries other)
        ]

  admit_others :
      (l : UserLimiter Bucket) (user_id j : String) (rpm now : ℕ)
      → user_id ≢ j
      → lookup j (admit t l user_id rpm now).1.entries ≡ lookup j l.entries
  unfolding admit record_potential_expiry
  admit_others l user_id j rpm now other = lookup-insert_ne user_id j _ l.entries other

module _ (t : TokenBucket) (hash : String → ℕ) where
  open t use {Bucket, allow_n}

  allow_fallback_entries :
      (l : UserLimiter Bucket) (user_id : String) (rpm now : ℕ) (x : Bool × UserLimiter Bucket)
      → allow_fallback t hash l user_id rpm now ≡ some x
      → x.1.entries ≡ l.entries
  unfolding allow_fallback
  allow_fallback_entries l user_id rpm now x call = ground arith

  -- A call for one user leaves the entry of every other user alone, its token bucket included, while
  -- that entry has not expired.
  pub allow_at_others :
      (l : UserLimiter Bucket) (user_id j : String) (rpm now : ℕ) (e : UserEntry Bucket)
      (x : Bool × UserLimiter Bucket)
      → user_id ≢ j
      → lookup j l.entries ≡ some e
      → now < e.last_seen + l.entry_idle_ttl
      → allow_at t hash l user_id rpm now ≡ some x
      → lookup j x.1.entries ≡ some e
  unfolding allow_at
  allow_at_others l user_id j rpm now e x other found live call =
      let kept = make_room_keeps l now j e found live in
      elim (Option-cases (lookup user_id l.entries)) [
        | inr (own, p) ↦ ground (arith, allow_existing_others t l user_id j own rpm now x other)
        | inl p ↦ ground (
          arith,
          admit_others t (make_room l now) user_id j rpm now other,
          allow_fallback_entries (make_room l now) user_id rpm now x,
        )
      ]
