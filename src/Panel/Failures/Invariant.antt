-- ===== src/Panel/Failures/Invariant.antt =====
-- auth_protector.go: what holds of a registry of failed logins between two calls.
use grok_search_mcp.Base.{
  ℕ, ◌+◌, ◌≤◌, ◌<◌, ◌≡◌, ◌⊎◌, inl, inr, String, Bool, true, false, none, List, [], ◌∷◌, arith, leb,
  eqb, if◌then◌else◌, length, Bool-cases, ◌&&◌,
}
use grok_search_mcp.Base.Keys.{string_key}
use grok_search_mcp.Base.Assoc.{
  lookup, retain, Unique, AllValues, AllValues-map, AllValues-retain, retain-Unique,
  length-retain-le, lookup-retain-none, retain_all,
}
use grok_search_mcp.Panel.Failures.{
  LoginFailureEntry, Policy, Registry, login_failure_entry_expiry, stays, scan_step, scan_expiry,
  cleanup_failures, make_room,
}
use grok_search_mcp.Panel.Failures.Lockout.{IsPolicy}

-- No entry carries more attempts than could reach the threshold, or a single one.
abbrev pub IsPaced : Policy → LoginFailureEntry → Type 0
IsPaced p e = (e.in_flight_attempts ≤ 1) ⊎ (e.failure_count + e.in_flight_attempts ≤ p.threshold)

-- The fields of an entry agree: without a failure there is no time and no lock.
abbrev pub IsCoherent : LoginFailureEntry → Type 0
IsCoherent e =
    ((e.failure_count ≡ 0) × (e.last_failure ≡ 0) × (e.locked_until ≡ 0))
    ⊎ ((0 < e.failure_count) × (0 < e.last_failure))

-- An entry without an attempt in flight has a failure, and the next expiry check is set and no later
-- than its expiry.
abbrev pub IsTracked : Policy → ℕ → Bool → LoginFailureEntry → Type 0
IsTracked p next known e =
    (0 < e.in_flight_attempts)
    ⊎ ((0 < e.failure_count) × (known ≡ true) × (next ≤ login_failure_entry_expiry e p.window))

abbrev pub IsSound : Policy → ℕ → Bool → LoginFailureEntry → Type 0
IsSound p next known e = IsPaced p e × IsCoherent e × IsTracked p next known e

pub record IsValid (p : Policy) (r : Registry) : Type 0 where
  pub unique : Unique r.entries
  pub bounded : length r.entries ≤ r.maximum_entries
  pub counted : r.current_entries ≡ length r.entries
  pub sound : AllValues (IsSound p r.next_expiry_check r.expiry_check_known) r.entries

abbrev pub Alive : Policy → LoginFailureEntry → Type 0
Alive p e = IsPaced p e × IsCoherent e × ((0 < e.in_flight_attempts) ⊎ (0 < e.failure_count))

-- The check is known and no later than the time.
abbrev pub Covers : ℕ × Bool → ℕ → Type 0
Covers acc x = (acc.1 ≡ true) × (acc.0 ≤ x)

scan_step-Covers :
    (p : Policy) (e : LoginFailureEntry) (acc : ℕ × Bool) (x : ℕ)
    → Covers acc x
    → Covers (scan_step p e acc) x
unfolding scan_step
scan_step-Covers p e acc x c = ground arith

scan_step-Covers_own :
    (p : Policy) (e : LoginFailureEntry) (acc : ℕ × Bool)
    → IsPolicy p
    → Alive p e
    → e.in_flight_attempts ≡ 0
    → Covers (scan_step p e acc) (login_failure_entry_expiry e p.window)
unfolding scan_step login_failure_entry_expiry
scan_step-Covers_own p e acc v a idle = ground arith

scan-Covers :
    (p : Policy) (m : List (String × LoginFailureEntry)) (acc : ℕ × Bool) (x : ℕ)
    → Covers acc x
    → Covers (scan_expiry p m acc) x
unfolding scan_expiry
scan-Covers p [] acc x c = c
scan-Covers p ((i, e) ∷ m) acc x c =
    scan-Covers p m (scan_step p e acc) x (scan_step-Covers p e acc x c)

scan-IsSound :
    (p : Policy) (m : List (String × LoginFailureEntry)) (acc : ℕ × Bool)
    → IsPolicy p
    → AllValues (Alive p) m
    → AllValues (IsSound p (scan_expiry p m acc).0 (scan_expiry p m acc).1) m
unfolding scan_expiry
scan-IsSound p [] acc v a = tt
scan-IsSound p ((i, e) ∷ m) acc v a = (
  (
    a.0.0,
    a.0.1,
    elim (Bool-cases (eqb e.in_flight_attempts 0)) [
      | inl idle ↦
          let c =
            scan-Covers p m (scan_step p e acc) (login_failure_entry_expiry e p.window)
              (scan_step-Covers_own p e acc v a.0 (ground arith)) in
          inr (ground arith, c.0, c.1)
      | inr flying ↦ inl (ground arith)
    ],
  ),
  scan-IsSound p m (scan_step p e acc) v a.1,
)

pub cleanup-IsValid :
    (p : Policy) (r : Registry) (now : ℕ)
    → IsPolicy p
    → IsValid p r
    → IsValid p (cleanup_failures p r now)
unfolding cleanup_failures
cleanup-IsValid p r now q v = record {
  unique = retain-Unique (stays p now) r.entries v.unique;
  bounded = omega (arith, v.bounded, length-retain-le (stays p now) r.entries);
  counted = omega (arith, v.counted, length-retain-le (stays p now) r.entries);
  sound =
      scan-IsSound p (retain (stays p now) r.entries) (0, false) q
        (AllValues-retain (IsSound p r.next_expiry_check r.expiry_check_known) (Alive p)
          (stays p now) r.entries (λ e s h. ground arith) v.sound);
}

pub make_room-IsValid :
    (p : Policy) (r : Registry) (now : ℕ) → IsPolicy p → IsValid p r → IsValid p (make_room p r now)
unfolding make_room
make_room-IsValid p r now q v = ground (arith, cleanup-IsValid p r now q v)

pub make_room-absent :
    (p : Policy) (r : Registry) (key : String) (now : ℕ)
    → lookup key r.entries ≡ none
    → lookup key (make_room p r now).entries ≡ none
unfolding make_room cleanup_failures
make_room-absent p r key now h = ground (arith, lookup-retain-none key (stays p now) r.entries h)

early_stays :
    (p : Policy) (next now : ℕ) (known : Bool) (e : LoginFailureEntry)
    → (known && leb next now) ≡ false
    → IsSound p next known e
    → stays p now e ≡ true
unfolding stays login_failure_entry_expiry
early_stays p next now known e ahead s = ground arith

-- With a valid policy and on a valid registry, making room removes, at capacity, exactly the entries
-- that the clean-up removes, also where it skips the scan, and otherwise nothing.
pub failures_make_room_exact :
    (p : Policy) (r : Registry) (now : ℕ)
    → IsPolicy p
    → IsValid p r
    → (make_room p r now).entries ≡ (
        if leb r.maximum_entries (length r.entries)
        then retain (stays p now) r.entries
        else r.entries)
unfolding make_room cleanup_failures
failures_make_room_exact p r now q v =
    elim (Bool-cases (r.expiry_check_known && leb r.next_expiry_check now)) [
      | inl due ↦ ground arith
      | inr ahead ↦
          let all_stay = retain_all (stays p now) r.entries (
            AllValues-map (IsSound p r.next_expiry_check r.expiry_check_known)
              (λ e. stays p now e ≡ true) r.entries
              (λ e s. early_stays p r.next_expiry_check now r.expiry_check_known e ahead s)
              v.sound) in
          ground (arith, all_stay)
    ]
