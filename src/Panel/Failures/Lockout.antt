-- ===== src/Panel/Failures/Lockout.antt =====
-- auth_protector.go: how long a lockout lasts, and that it holds.
use native.Mathlib.Nat.{
  le-div_iff_mul-le, one-le-pow, pow-le-pow_right, mul-le-mul_left, le-mul_of_pos_right,
}
use grok_search_mcp.Base.{
  ℕ, ◌+◌, ◌-◌, ◌*◌, ◌/◌, ◌^◌, ◌≤◌, ◌<◌, ◌≡◌, inl, inr, String, some, arith, ltb, Bool-cases,
}
use grok_search_mcp.Base.Keys.{string_key}
use grok_search_mcp.Base.Assoc.{lookup, lookup-insert_self, lookup-retain_kept}
use grok_search_mcp.Panel.Failures.{
  LoginFailureEntry, Policy, Registry, failed, excess_failures, scaled_lockout,
  lockout_duration_for_failures, retry_after, stays, cleanup_failures, reserve, locked, complete,
  settle, store_settled, count_failure, record_failure_expiry,
}

-- A policy as the constructor leaves it.
pub record IsPolicy (p : Policy) : Type 0 where
  pub threshold_pos : 0 < p.threshold
  pub window_pos : 0 < p.window
  pub base_pos : 0 < p.base_lockout
  pub ordered : p.base_lockout ≤ p.max_lockout

pow_pos : (k : ℕ) → 0 < 2 ^ k
pow_pos k = one-le-pow k 2 (omega arith)

mul_grows : (b d : ℕ) → 0 < d → b ≤ b * d
mul_grows b d h = le-mul_of_pos_right b h

scaled_bounds :
    (p : Policy) (k : ℕ)
    → IsPolicy p
    → (p.base_lockout ≤ scaled_lockout p k) × (scaled_lockout p k ≤ p.max_lockout)
unfolding scaled_lockout
scaled_bounds p k v = elim (Bool-cases (ltb (p.max_lockout / 2 ^ k) p.base_lockout)) [
  | inl over ↦ rw over (v.ordered, omega arith)
  | inr fits ↦
      let product : p.base_lockout * 2 ^ k ≤ p.max_lockout =
        (le-div_iff_mul-le {y = p.max_lockout} (pow_pos k)).0 (ground arith) in
      rw fits (mul_grows p.base_lockout (2 ^ k) (pow_pos k), product)
]

scaled_mono : (p : Policy) (j k : ℕ) → IsPolicy p → j ≤ k → scaled_lockout p j ≤ scaled_lockout p k
unfolding scaled_lockout
scaled_mono p j k v h = elim (Bool-cases (ltb (p.max_lockout / 2 ^ k) p.base_lockout)) [
  | inl over ↦ rw over (scaled_bounds p j v).1
  | inr fits ↦
      let product : p.base_lockout * 2 ^ k ≤ p.max_lockout =
        (le-div_iff_mul-le {y = p.max_lockout} (pow_pos k)).0 (ground arith) in
      let powers : 2 ^ j ≤ 2 ^ k = pow-le-pow_right (omega arith) h in
      let products : p.base_lockout * 2 ^ j ≤ p.base_lockout * 2 ^ k =
        mul-le-mul_left p.base_lockout powers in
      let fits_too : p.base_lockout ≤ p.max_lockout / 2 ^ j =
        (le-div_iff_mul-le {y = p.max_lockout} (pow_pos j)).1 (omega arith) in
      rw fits (ground arith)
]

-- With a policy whose settings are positive and whose maximum is not below its base, a lockout lasts
-- at least the base and at most the maximum.
pub lockout_bounds :
    (p : Policy) (failure_count : ℕ)
    → IsPolicy p
    → (p.base_lockout ≤ lockout_duration_for_failures p failure_count)
      × (lockout_duration_for_failures p failure_count ≤ p.max_lockout)
unfolding lockout_duration_for_failures
lockout_bounds p failure_count v = scaled_bounds p (excess_failures p failure_count) v

-- With a policy whose settings are positive and whose maximum is not below its base, more failures
-- never make the lockout shorter.
pub lockout_mono :
    (p : Policy) (m n : ℕ)
    → IsPolicy p
    → m ≤ n
    → lockout_duration_for_failures p m ≤ lockout_duration_for_failures p n
unfolding lockout_duration_for_failures excess_failures
lockout_mono p m n v h = scaled_mono p (excess_failures p m) (excess_failures p n) v (ground arith)

-- A locked key is refused for the rest of its time.
locked_refused :
    (p : Policy) (r : Registry) (key : String) (e : LoginFailureEntry) (now : ℕ)
    → lookup key r.entries ≡ some e
    → now < e.locked_until
    → (reserve p r key now).0 ≡ locked (e.locked_until - now)
unfolding reserve retry_after
locked_refused p r key e now found h = ground arith

cleanup_keeps_locked :
    (p : Policy) (r : Registry) (key : String) (e : LoginFailureEntry) (now : ℕ)
    → lookup key r.entries ≡ some e
    → now < e.locked_until
    → lookup key (cleanup_failures p r now).entries ≡ some e
unfolding cleanup_failures stays
cleanup_keeps_locked p r key e now found h =
    lookup-retain_kept key (stays p now) e r.entries found (ground arith)

stored_failure :
    (p : Policy) (r : Registry) (key : String) (e : LoginFailureEntry) (now : ℕ)
    → 0 < e.failure_count
    → lookup key (store_settled p r key e now).entries ≡ some e
unfolding store_settled record_failure_expiry
stored_failure p r key e now h = ground (arith, lookup-insert_self key e r.entries)

-- With a valid policy, the failed attempt that reaches the threshold within the failure window of the
-- one before locks its key: until the base lockout has passed, an attempt for the key is refused with
-- a positive delay, also after a clean-up in that time.
pub failure_locks :
    (p : Policy) (r : Registry) (key : String) (e : LoginFailureEntry) (now cleaned later : ℕ)
    → IsPolicy p
    → lookup key r.entries ≡ some e
    → 0 < e.in_flight_attempts
    → now < e.last_failure + p.window
    → p.threshold ≤ e.failure_count + 1
    → cleaned < now + p.base_lockout
    → later < now + p.base_lockout
    → (d : ℕ) × ((reserve p
          (cleanup_failures p (complete p r key e.id failed now) cleaned)
          key
          later).0
        ≡ locked d)
      × (0 < d)
unfolding complete settle count_failure
failure_locks p r key e now cleaned later v found flying recent reaches hc hl =
    let s = settle p e failed now in
    let (base, most) = lockout_bounds p (e.failure_count + 1) v in
    let until : s.locked_until ≡ now + lockout_duration_for_failures p (e.failure_count + 1) =
      ground arith in
    let stored : lookup key (complete p r key e.id failed now).entries ≡ some s =
      rw (found, complete) (ground (arith, stored_failure p r key s now (ground arith))) in
    let kept =
      cleanup_keeps_locked p (complete p r key e.id failed now) key s cleaned stored
        (omega arith) in
    (
      s.locked_until - later,
      locked_refused p (cleanup_failures p (complete p r key e.id failed now) cleaned) key s later
          kept (omega arith),
      omega arith,
    )
