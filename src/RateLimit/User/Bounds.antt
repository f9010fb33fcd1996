-- ===== src/RateLimit/User/Bounds.antt =====
-- user_limiter.go: what holds of the registry between two calls, and that every call keeps it.
use grok_search_mcp.Base.{
  ℕ, zero, suc, ◌+◌, ◌≤◌, ◌<◌, ◌%◌, ◌≡◌, refl, inl, inr, String, Bool, Option, none, some, List, [],
  ◌∷◌, arith, ltb, leb, eqb, ltb→lt, if◌then◌else◌, length, get_elem?, length-set, length-replicate,
  Option-cases, Bool-cases,
}
use grok_search_mcp.Base.Int.{positive_or-pos}
use grok_search_mcp.Base.Keys.{string_key}
use grok_search_mcp.Base.Assoc.{
  lookup, insert, retain, Unique, AllValues-all, AllValues-insert, insert-Unique, retain-Unique,
  length-insert_new, length-insert_old, length-retain-le, lookup-retain-none,
}
use grok_search_mcp.Base.Expiry.{
  earliest, AllTracked, AllTracked-earliest, earliest-Tracked, next_expiry-AllTracked, Tracked,
}
use grok_search_mcp.RateLimit.Bucket.{TokenBucket}
use grok_search_mcp.RateLimit.User.{
  UserEntry, FallbackBucket, UserLimiter, UserLimiterConfig, new_user_limiter, expiry_of,
  record_potential_expiry, cleanup_expired_entries, make_room, limit_for, retune, allow_existing,
  admit, shared_bucket, fallback_bucket_index, allow_fallback, allow_at,
}

-- The registry holds at most its capacity, counts its entries, and its next expiry check is no later
-- than the first expiry.
pub record IsValid {B : Type 0} (l : UserLimiter B) : Type 0 where
  pub unique : Unique l.entries
  pub bounded : length l.entries ≤ l.maximum_entries
  pub counted : l.current_entries ≡ length l.entries
  pub tracked : AllTracked (expiry_of l) l.next_expiry_check l.entries
  pub ttl_pos : 0 < l.entry_idle_ttl
  pub has_fallback : 0 < length l.fallback_buckets

module _ {B : Type 0} where
  pub new_user_limiter-IsValid : (c : UserLimiterConfig) → IsValid (new_user_limiter {B = B} c)
  unfolding new_user_limiter
  new_user_limiter-IsValid c = record {
    unique = tt;
    bounded = omega arith;
    counted = refl;
    tracked = tt;
    ttl_pos = positive_or-pos c.entry_idle_ttl 1_800_000_000_000 (omega arith);
    has_fallback =
        rw length-replicate
          (ground (arith, positive_or-pos c.fallback_bucket_count 64 (omega arith)));
  }

  pub cleanup-IsValid :
      (l : UserLimiter B) (now : ℕ) → IsValid l → IsValid (cleanup_expired_entries l now)
  unfolding cleanup_expired_entries
  cleanup-IsValid l now v = record {
    unique = retain-Unique (λ e. ltb now (expiry_of l e)) l.entries v.unique;
    bounded = omega (arith, v.bounded, length-retain-le (λ e. ltb now (expiry_of l e)) l.entries);
    counted = omega (arith, v.counted, length-retain-le (λ e. ltb now (expiry_of l e)) l.entries);
    tracked =
        next_expiry-AllTracked (expiry_of l) (retain (λ e. ltb now (expiry_of l e)) l.entries) 0 (
          AllValues-all (λ e. 0 < expiry_of l e) (retain (λ e. ltb now (expiry_of l e)) l.entries)
            (λ e. omega (arith, v.ttl_pos)));
    ttl_pos = v.ttl_pos;
    has_fallback = v.has_fallback;
  }

  pub make_room-IsValid : (l : UserLimiter B) (now : ℕ) → IsValid l → IsValid (make_room l now)
  unfolding make_room
  make_room-IsValid l now v = ground (arith, cleanup-IsValid l now v)

  make_room-absent :
      (l : UserLimiter B) (user_id : String) (now : ℕ)
      → lookup user_id l.entries ≡ none
      → lookup user_id (make_room l now).entries ≡ none
  unfolding make_room cleanup_expired_entries
  make_room-absent l user_id now h =
      ground (arith, lookup-retain-none user_id (λ e. ltb now (expiry_of l e)) l.entries h)

  -- Storing an entry that was seen now and recording its expiry.
  stored-IsValid :
      (l : UserLimiter B) (user_id : String) (e : UserEntry B) (now count admissions : ℕ)
      → IsValid l
      → e.last_seen ≡ now
      → count ≡ length (insert user_id e l.entries)
      → count ≤ l.maximum_entries
      → IsValid (
          record_potential_expiry
            (record l {
              entries = insert user_id e l.entries;
              current_entries = count;
              dedicated_admissions = admissions;
            })
            now)
  unfolding record_potential_expiry
  stored-IsValid l user_id e now count admissions v seen counts fits = record {
    unique = insert-Unique user_id e l.entries v.unique;
    bounded = omega (arith, counts, fits);
    counted = counts;
    tracked =
        AllValues-insert
          (λ x. Tracked (earliest l.next_expiry_check (now + l.entry_idle_ttl)) (expiry_of l x))
          user_id e l.entries
          (AllTracked-earliest (expiry_of l) l.next_expiry_check (now + l.entry_idle_ttl) l.entries
            (omega (arith, v.ttl_pos)) v.tracked)
          (rw seen (
            earliest-Tracked l.next_expiry_check (now + l.entry_idle_ttl)
              (omega (arith, v.ttl_pos))));
    ttl_pos = v.ttl_pos;
    has_fallback = v.has_fallback;
  }

module _ (t : TokenBucket) where
  open t use {Bucket, allow_n}

  retune_total : (b : Bucket) (rpm now : ℕ) → 0 < rpm → (r : Bucket) × (retune t b rpm now ≡ some r)
  unfolding retune
  retune_total b zero now h = elim h [ ]
  retune_total b (suc n) now h = (_, refl)

  -- A call returns, and the registry stays valid.
  abbrev pub Serves : Option (Bool × UserLimiter Bucket) → Type 0
  Serves r = (x : Bool × UserLimiter Bucket) × (r ≡ some x) × IsValid x.1

  used_bucket :
      (e : UserEntry Bucket) (rpm now : ℕ)
      → 0 < rpm
      → (b : Bucket) × ((if eqb e.rpm rpm then some e.limiter else retune t e.limiter rpm now)
          ≡ some b)
  used_bucket e rpm now h = elim (Bool-cases (eqb e.rpm rpm)) [
    | inl same ↦ rw same (e.limiter, refl)
    | inr other ↦ rw other (retune_total e.limiter rpm now h)
  ]

  allow_existing-Serves :
      (l : UserLimiter Bucket) (user_id : String) (e : UserEntry Bucket) (rpm now : ℕ)
      → IsValid l
      → lookup user_id l.entries ≡ some e
      → 0 < rpm
      → Serves (allow_existing t l user_id e rpm now)
  unfolding allow_existing
  allow_existing-Serves l user_id e rpm now v found h =
      let (b, used) = used_bucket e rpm now h in
      rw used (
        _,
        refl,
        stored-IsValid l user_id _ now l.current_entries l.dedicated_admissions v refl
            (omega (
              arith,
              v.counted,
              length-insert_old user_id
                  (record { limiter = (allow_n b now 1).1; rpm = rpm; last_seen = now }) e l.entries
                  found,
            ))
            (omega (arith, v.counted, v.bounded)),
      )

  admit-IsValid :
      (l : UserLimiter Bucket) (user_id : String) (rpm now : ℕ)
      → IsValid l
      → lookup user_id l.entries ≡ none
      → length l.entries < l.maximum_entries
      → IsValid (admit t l user_id rpm now).1
  unfolding admit
  admit-IsValid l user_id rpm now v absent room =
      stored-IsValid l user_id _ now (l.current_entries + 1) (l.dedicated_admissions + 1) v refl
        (omega (
          arith,
          v.counted,
          length-insert_new user_id
              (record { limiter = (allow_n (limit_for t rpm) now 1).1; rpm = rpm; last_seen = now })
              l.entries absent,
        ))
        (omega (arith, v.counted, room))

  shared_bucket_total :
      (ttl : ℕ) (f : FallbackBucket Bucket) (rpm now : ℕ)
      → 0 < rpm
      → (r : Bucket × ℕ) × (shared_bucket t ttl f rpm now ≡ some r)
  unfolding shared_bucket
  shared_bucket_total ttl f rpm now h = elim (Option-cases f.limiter) [
    | inl unset ↦ rw unset (_, refl)
    | inr (b, held) ↦
        let (b', tuned) = retune_total b rpm now h in
        rw (held, tuned)
          (elim (Bool-cases (leb (f.last_seen + ttl) now)) [
            | inl idle ↦ rw idle (_, refl)
            | inr active ↦ rw active (elim (Bool-cases (ltb rpm f.rpm)) [
              | inl stricter ↦ rw stricter (_, refl)
              | inr same ↦ rw same (_, refl)
            ])
          ])
  ]

get_elem?_total {ℓ} :
    {A : Type ℓ} (xs : List A) (i : ℕ) → i < length xs → (a : A) × (get_elem? xs i ≡ some a)
get_elem?_total [] i h = elim h [ ]
get_elem?_total (x ∷ xs) zero h = (x, refl)
get_elem?_total (x ∷ xs) (suc i) h = get_elem?_total xs i (omega arith)

module _ (t : TokenBucket) (hash : String → ℕ) where
  open t use {Bucket, allow_n}

  fallback_bucket_index_total :
      (l : UserLimiter Bucket) (user_id : String)
      → IsValid l
      → (i : ℕ) × (fallback_bucket_index t hash l user_id ≡ some i)
        × (i < length l.fallback_buckets)
  unfolding fallback_bucket_index
  fallback_bucket_index_total l user_id v =
      (hash user_id % length l.fallback_buckets, ground (arith, v.has_fallback), omega arith)

  allow_fallback-Serves :
      (l : UserLimiter Bucket) (user_id : String) (rpm now : ℕ)
      → IsValid l
      → 0 < rpm
      → Serves t (allow_fallback t hash l user_id rpm now)
  unfolding allow_fallback
  allow_fallback-Serves l user_id rpm now v h =
      let (i, index, within) = fallback_bucket_index_total l user_id v in
      let (f, found) = get_elem?_total l.fallback_buckets i within in
      let (r, shared) = shared_bucket_total t l.entry_idle_ttl f rpm now h in
      rw (index, found, shared)
        (
          _,
          refl,
          record {
            unique = v.unique;
            bounded = v.bounded;
            counted = v.counted;
            tracked = v.tracked;
            ttl_pos = v.ttl_pos;
            has_fallback = rw length-set v.has_fallback;
          },
        )

  -- With a positive rate, on a valid registry, every call of allowAt returns without a panic, and
  -- leaves a valid registry: bounded by its capacity, its entries counted, its expiry check no later
  -- than any expiry.
  pub allow_at-IsValid :
      (l : UserLimiter Bucket) (user_id : String) (rpm now : ℕ)
      → IsValid l
      → 0 < rpm
      → (x : Bool × UserLimiter Bucket) × (allow_at t hash l user_id rpm now ≡ some x) × IsValid x.1
  unfolding allow_at
  allow_at-IsValid l user_id rpm now v h = elim (Option-cases (lookup user_id l.entries)) [
    | inr (e, found) ↦ rw (found, allow_at) (allow_existing-Serves t l user_id e rpm now v found h)
    | inl absent ↦
        rw (absent, allow_at)
          (elim (Bool-cases
            (ltb (length (make_room l now).entries) (make_room l now).maximum_entries)) [
              | inl room ↦ rw room (
                _,
                refl,
                admit-IsValid t (make_room l now) user_id rpm now (make_room-IsValid l now v)
                    (make_room-absent l user_id now absent) (ltb→lt _ _ room),
              )
              | inr full ↦ rw full (
                  allow_fallback-Serves (make_room l now) user_id rpm now
                    (make_room-IsValid l now v) h)
            ])
  ]
