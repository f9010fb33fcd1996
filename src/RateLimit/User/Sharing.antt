-- ===== src/RateLimit/User/Sharing.antt =====
-- user_limiter.go: the fallback buckets that users share once the registry is full.
use grok_search_mcp.Base.{
  ℕ, zero, suc, ◌+◌, ◌≤◌, ◌<◌, ◌≡◌, refl, inl, inr, String, Bool, false, ◌/◌, leb, List, [], ◌∷◌,
  arith, ltb, eqb, if◌then◌else◌, length, Bool-cases, some, Option-cases, get_elem?, set, min,
  subst,
}
use grok_search_mcp.Base.Keys.{string_key}
use grok_search_mcp.Base.Assoc.{lookup}
use grok_search_mcp.RateLimit.Bucket.{TokenBucket, minute}
use grok_search_mcp.RateLimit.User.{
  FallbackBucket, UserLimiter, cleanup_expired_entries, make_room, allow_existing, admit,
  allow_fallback, allow_at, record_potential_expiry, retune, shared_bucket, fallback_bucket_index,
}

get_elem?-set {ℓ} :
    {A : Type ℓ} (xs : List A) (i j : ℕ) (v w : A)
    → get_elem? xs j ≡ some w
    → get_elem? (set xs i v) j ≡ (if eqb i j then some v else some w)
get_elem?-set [] i j v w h = cc
get_elem?-set (x ∷ xs) zero zero v w h = refl
get_elem?-set (x ∷ xs) zero (suc j) v w h = ground arith
get_elem?-set (x ∷ xs) (suc i) zero v w h = ground arith
get_elem?-set (x ∷ xs) (suc i) (suc j) v w h = ground (arith, get_elem?-set xs i j v w h)

module _ (t : TokenBucket) where
  open t use {Bucket, every, allow_n, set_limit_at, set_burst_at}

  -- Where a relation between a bucket with its rate and what became of it holds of no change, and goes on
  -- holding when requests take their tokens and when the rate is lowered.
  pub record IsDescent (Descends : Bucket × ℕ → Bucket × ℕ → Type 0) : Type 0 where
    pub same : (b : Bucket × ℕ) → Descends b b
    pub takes :
        (b : Bucket × ℕ) (c : Bucket) (rpm now n : ℕ)
        → Descends b (c, rpm)
        → Descends b ((allow_n c now n).1, rpm)
    pub lowers :
        (b : Bucket × ℕ) (c : Bucket) (rpm now n : ℕ)
        → suc n < rpm
        → Descends b (c, rpm)
        → Descends b (set_burst_at (set_limit_at c now (every (minute / suc n))) now (suc n), suc n)

  retune-Descends :
      (Descends : Bucket × ℕ → Bucket × ℕ → Type 0) (b tuned : Bucket) (rpm lower now : ℕ)
      → IsDescent Descends
      → lower < rpm
      → retune t b lower now ≡ some tuned
      → Descends (b, rpm) (tuned, lower)
  unfolding retune
  retune-Descends Descends b tuned rpm zero now d less h = cc
  retune-Descends Descends b tuned rpm (suc n) now d less h =
      let made : set_burst_at (set_limit_at b now (every (minute / suc n))) now (suc n) ≡ tuned =
        cc in
      subst (λ c. Descends (b, rpm) (c, suc n)) made
        (d.lowers (b, rpm) b rpm now n less (d.same (b, rpm)))

  shared_bucket-Descends :
      (Descends : Bucket × ℕ → Bucket × ℕ → Type 0) (ttl : ℕ) (f : FallbackBucket Bucket)
      (b : Bucket) (rpm now : ℕ) (r : Bucket × ℕ)
      → IsDescent Descends
      → f.limiter ≡ some b
      → now < f.last_seen + ttl
      → shared_bucket t ttl f rpm now ≡ some r
      → Descends (b, f.rpm) r
  unfolding shared_bucket
  shared_bucket-Descends Descends ttl f b rpm now r d held active h =
      let awake : leb (f.last_seen + ttl) now ≡ false = ground arith in
      elim (Bool-cases (ltb rpm f.rpm)) [
        | inr higher ↦
            let kept : (b, f.rpm) ≡ r =
              let found = rw (held, shared_bucket, awake, higher) at h in cc in
            subst (λ c. Descends (b, f.rpm) c) kept (d.same (b, f.rpm))
        | inl lower ↦ elim (Option-cases (retune t b rpm now)) [
          | inl panics ↦
              let wrong = rw (held, shared_bucket, awake, lower, panics) at h in absurd (cc)
          | inr (tuned, retuned) ↦
              let kept : (tuned, rpm) ≡ r =
                let found = rw (held, shared_bucket, awake, lower, retuned) at h in cc in
              subst (λ c. Descends (b, f.rpm) c) kept
                (retune-Descends Descends b tuned f.rpm rpm now d (ground arith) retuned)
        ]
      ]

  shared_bucket_rpm :
      (ttl : ℕ) (f : FallbackBucket Bucket) (b : Bucket) (rpm now : ℕ) (r : Bucket × ℕ)
      → f.limiter ≡ some b
      → now < f.last_seen + ttl
      → shared_bucket t ttl f rpm now ≡ some r
      → r.1 ≡ min rpm f.rpm
  unfolding shared_bucket
  shared_bucket_rpm ttl f b rpm now r held active h = ground arith

  make_room_fallbacks :
      (l : UserLimiter Bucket) (now : ℕ)
      → ((make_room l now).fallback_buckets ≡ l.fallback_buckets)
        × ((make_room l now).entry_idle_ttl ≡ l.entry_idle_ttl)
  unfolding make_room cleanup_expired_entries
  make_room_fallbacks l now = ground arith

  -- The shared bucket is there, descends from what it was, and its rate is no higher.
  abbrev pub NotFaster :
      (Bucket × ℕ → Bucket × ℕ → Type 0)
      → ℕ
      → FallbackBucket Bucket
      → Bucket
      → UserLimiter Bucket
      → Type 0
  NotFaster Descends i f b l =
      (g : FallbackBucket Bucket) × (c : Bucket) × (get_elem? l.fallback_buckets i ≡ some g)
      × (g.limiter ≡ some c)
      × Descends (b, f.rpm) (c, g.rpm)
      × (g.rpm ≤ f.rpm)

module _ (t : TokenBucket) (hash : String → ℕ) where
  open t use {Bucket, allow_n}

  allow_fallback-NotFaster :
      (Descends : Bucket × ℕ → Bucket × ℕ → Type 0) (l : UserLimiter Bucket) (user_id : String)
      (rpm now i : ℕ) (f : FallbackBucket Bucket) (b : Bucket) (x : Bool × UserLimiter Bucket)
      → IsDescent t Descends
      → get_elem? l.fallback_buckets i ≡ some f
      → f.limiter ≡ some b
      → now < f.last_seen + l.entry_idle_ttl
      → allow_fallback t hash l user_id rpm now ≡ some x
      → NotFaster t Descends i f b x.1
  unfolding allow_fallback
  allow_fallback-NotFaster Descends l user_id rpm now i f b x d found held active call =
      elim (Option-cases (fallback_bucket_index t hash l user_id)) [
        | inl panics ↦ absurd (ground arith)
        | inr (k, index) ↦ elim (Option-cases (get_elem? l.fallback_buckets k)) [
          | inl panics ↦ absurd (ground arith)
          | inr (g, at_k) ↦ elim (Option-cases (shared_bucket t l.entry_idle_ttl g rpm now)) [
            | inl panics ↦ absurd (ground arith)
            | inr (r, shared) ↦
                let v : FallbackBucket Bucket = record {
                  limiter = some (allow_n r.0 now 1).1;
                  rpm = r.1;
                  last_seen = now;
                } in
                let written : get_elem? x.1.fallback_buckets i
                    ≡ (if eqb k i then some v else some f) =
                  ground (arith, get_elem?-set l.fallback_buckets k i v f found) in
                elim (Bool-cases (eqb k i)) [
                  | inl same ↦
                      let own : shared_bucket t l.entry_idle_ttl f rpm now ≡ some r =
                        ground arith in
                      (
                        v,
                        (allow_n r.0 now 1).1,
                        rw same at written,
                        refl,
                        d.takes (b, f.rpm) r.0 r.1 now 1
                            (shared_bucket-Descends t Descends l.entry_idle_ttl f b rpm now r d held
                              active own),
                        omega (
                          arith,
                          shared_bucket_rpm t l.entry_idle_ttl f b rpm now r held active own,
                        ),
                      )
                  | inr other ↦ (f, b, rw other at written, held, d.same (b, f.rpm), omega arith)
                ]
          ]
        ]
      ]

  -- While a shared bucket is active, no call, for whichever user and at whichever rate, makes it more
  -- permissive: what is there afterwards descends from it by taking tokens and by lowering the rate alone,
  -- and its rate is no higher.
  pub allow_at_shared :
      (Descends : Bucket × ℕ → Bucket × ℕ → Type 0) (l : UserLimiter Bucket) (user_id : String)
      (rpm now i : ℕ) (f : FallbackBucket Bucket) (b : Bucket) (x : Bool × UserLimiter Bucket)
      → IsDescent t Descends
      → get_elem? l.fallback_buckets i ≡ some f
      → f.limiter ≡ some b
      → now < f.last_seen + l.entry_idle_ttl
      → allow_at t hash l user_id rpm now ≡ some x
      → (g : FallbackBucket Bucket) × (c : Bucket) × (get_elem? x.1.fallback_buckets i ≡ some g)
        × (g.limiter ≡ some c)
        × Descends (b, f.rpm) (c, g.rpm)
        × (g.rpm ≤ f.rpm)
  unfolding allow_at allow_existing admit record_potential_expiry
  allow_at_shared Descends l user_id rpm now i f b x d found held active call =
      let (same, ttl) = make_room_fallbacks t l now in
      let kept = d.same (b, f.rpm) in
      elim (Option-cases (lookup user_id l.entries)) [
        | inr (e, known) ↦ (f, b, ground arith, held, kept, omega arith)
        | inl new ↦
            elim (Bool-cases
              (ltb (length (make_room l now).entries) (make_room l now).maximum_entries)) [
                | inl room ↦ (f, b, ground arith, held, kept, omega arith)
                | inr full ↦
                    allow_fallback-NotFaster Descends (make_room l now) user_id rpm now i f b x d
                      (ground arith) held (ground arith) (ground arith)
              ]
      ]
