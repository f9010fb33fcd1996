-- ===== src/RateLimit/Search/Admission.antt =====
-- search_concurrency_limiter.go: who is admitted.
use grok_search_mcp.Base.{
  ℕ, ◌<◌, ◌≡◌, ◌⊎◌, inl, inr, String, some, arith, leb, if◌then◌else◌, length, Bool-cases,
}
use grok_search_mcp.Base.Keys.{string_key, nat_key}
use grok_search_mcp.Base.Assoc.{lookup, insert}
use grok_search_mcp.RateLimit.Search.{
  SearchConcurrencyLimiter, entry_for, touch, grant, acquire_for_user, try_acquire, Acquisition,
  granted, rejected,
}
use grok_search_mcp.RateLimit.Search.Invariant.{Inv, held_by, active-held_by}
use grok_search_mcp.RateLimit.Search.Preservation.{entry_for_lem, touch-Inv}

-- The answer that the permits which are out determine.
abbrev pub permitted : SearchConcurrencyLimiter → String → Acquisition
permitted l u =
    if leb l.global_limit (length l.held)
    then rejected "global search concurrency limit reached"
    else if leb l.per_user_limit (held_by l u)
    then rejected "user search concurrency limit reached"
    else granted l.next_lease

acquire_for_user_exact :
    (l : SearchConcurrencyLimiter) (u : String) (p : ℕ)
    → Inv l
    → lookup u l.entries ≡ some p
    → (acquire_for_user l u p).0 ≡ (
        if leb l.per_user_limit (held_by l u)
        then rejected "user search concurrency limit reached"
        else granted l.next_lease)
unfolding acquire_for_user grant
acquire_for_user_exact l u p v found = ground (arith, active-held_by l u p v found)

-- tryAcquire decides by the permits that are out, whatever the map of entries went through: it
-- refuses exactly when globalLimit permits are out, or perUserLimit permits of the user.
pub try_acquire_exact :
    (l : SearchConcurrencyLimiter) (u : String) (now : ℕ)
    → Inv l
    → (try_acquire l u now).0 ≡ permitted l u
unfolding try_acquire touch
try_acquire_exact l u now v =
    let lem = entry_for_lem l u v in
    let (p, l') = entry_for l u in
    let user = acquire_for_user_exact (touch l' p now) u p (touch-Inv l' p now lem.0) lem.1 in
    ground (arith, v.counted, user, lem)

-- How a call ends: refused, with the permits as they were, or with one more below both limits.
abbrev pub Admits :
    SearchConcurrencyLimiter → String → Acquisition × SearchConcurrencyLimiter → Type 0
Admits l u r =
    ((m : String) × (r.0 ≡ rejected m) × (r.1.held ≡ l.held))
    ⊎ ((p : ℕ) × (r.0 ≡ granted l.next_lease)
        × (r.1.held ≡ insert l.next_lease (record { user_id = u; entry = p }) l.held)
        × (length l.held < l.global_limit)
        × (held_by l u < l.per_user_limit))

pub try_acquire-Admits :
    (l : SearchConcurrencyLimiter) (u : String) (now : ℕ) → Inv l → Admits l u (try_acquire l u now)
unfolding try_acquire acquire_for_user grant touch
try_acquire-Admits l u now v =
    let lem = entry_for_lem l u v in
    let (p, l') = entry_for l u in
    let user = active-held_by (touch l' p now) u p (touch-Inv l' p now lem.0) lem.1 in
    elim (Bool-cases (leb l.global_limit l.global_active)) [
      | inl full ↦ inl ("global search concurrency limit reached", ground arith, ground arith)
      | inr room ↦ elim (Bool-cases (leb l'.per_user_limit ((touch l' p now).heap p).active)) [
        | inl busy ↦
            inl ("user search concurrency limit reached", ground (arith, lem), ground (arith, lem))
        | inr idle ↦ inr (
          p,
          ground (arith, lem),
          ground (arith, lem),
          ground (arith, v.counted),
          ground (arith, user, lem),
        )
      ]
    ]
