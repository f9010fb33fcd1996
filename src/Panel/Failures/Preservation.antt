-- ===== src/Panel/Failures/Preservation.antt =====
-- auth_protector.go: every operation on a registry of failed logins keeps it valid.
use grok_search_mcp.Base.{
  ℕ, ◌<◌, ◌≡◌, refl, inl, inr, String, Bool, false, none, some, List, arith, ltb, leb, eqb, length,
  Bool-cases, Option-cases, ◌&&◌, ◌||◌, not,
}
use grok_search_mcp.Base.Keys.{string_key}
use grok_search_mcp.Base.Assoc.{
  lookup, insert, AllValues, AllValues-insert, AllValues-erase, AllValues-map, AllValues-lookup,
  insert-Unique, erase-Unique, length-insert_new, length-insert_old, length-erase,
}
use grok_search_mcp.Panel.Failures.{
  LoginFailureEntry, Policy, Registry, LoginAttemptOutcome, abandoned, failed, succeeded,
  login_failure_entry_expiry, retry_after, stays, make_room, reserve_new, reserve, complete, settle,
  store_settled, count_failure, record_failure_expiry, expiry_step, with_attempt, first_attempt,
}
use grok_search_mcp.Panel.Failures.Lockout.{IsPolicy}
use grok_search_mcp.Panel.Failures.Invariant.{
  IsPaced, IsCoherent, IsSound, IsValid, Covers, make_room-IsValid, make_room-absent,
}

-- The sound entries stay sound when the check moves to an earlier time.
sooner-IsSound :
    (p : Policy) (a b : ℕ × Bool) (m : List (String × LoginFailureEntry))
    → ((x : ℕ) → Covers a x → Covers b x)
    → AllValues (IsSound p a.0 a.1) m
    → AllValues (IsSound p b.0 b.1) m
sooner-IsSound p a b m f s =
    AllValues-map (IsSound p a.0 a.1) (IsSound p b.0 b.1) m
      (λ e (paced, coherent, tracked). (
        paced,
        coherent,
        elim tracked [
          | inl flying ↦ inl flying
          | inr (count, known, next) ↦
              let c = f (login_failure_entry_expiry e p.window) (known, next) in
              inr (count, c.0, c.1)
        ],
      ))
      s

-- Putting a sound entry in the place of a key's entry.
replaced-IsValid :
    (p : Policy) (r : Registry) (key : String) (old e : LoginFailureEntry)
    → IsValid p r
    → lookup key r.entries ≡ some old
    → IsSound p r.next_expiry_check r.expiry_check_known e
    → IsValid p (record r { entries = insert key e r.entries })
replaced-IsValid p r key old e v found s =
    let same = length-insert_old key e old r.entries found in
    record {
      unique = insert-Unique key e r.entries v.unique;
      bounded = omega (arith, same, v.bounded);
      counted = omega (arith, same, v.counted);
      sound =
          AllValues-insert (IsSound p r.next_expiry_check r.expiry_check_known) key e r.entries
            v.sound s;
    }

with_attempt-IsSound :
    (p : Policy) (next now : ℕ) (known : Bool) (e : LoginFailureEntry)
    → IsSound p next known e
    → ltb 0 (retry_after p e now) ≡ false
    → IsSound p next known (with_attempt e)
unfolding retry_after
with_attempt-IsSound p next now known e s free = (ground arith, s.1, inl (omega arith))

reserve_new-IsValid :
    (p : Policy) (r : Registry) (key : String)
    → IsValid p r
    → lookup key r.entries ≡ none
    → IsValid p (reserve_new r key).1
unfolding reserve_new
reserve_new-IsValid p r key v absent =
    elim (Bool-cases (leb r.maximum_entries (length r.entries))) [
      | inl at_capacity ↦
          rw at_capacity (record {
            unique = v.unique;
            bounded = v.bounded;
            counted = v.counted;
            sound = v.sound;
          })
      | inr room ↦
          let e = first_attempt r.next_id in
          let more = length-insert_new key e r.entries absent in
          rw room (record {
            unique = insert-Unique key e r.entries v.unique;
            bounded = ground (arith, more);
            counted = omega (arith, more, v.counted);
            sound =
                AllValues-insert (IsSound p r.next_expiry_check r.expiry_check_known) key e
                  r.entries v.sound (inl (omega arith), inl (refl, refl, refl), inl (omega arith));
          })
    ]

-- With a valid policy, reserving an attempt keeps a valid registry valid, whether it is admitted or
-- refused.
pub reserve-IsValid :
    (p : Policy) (r : Registry) (key : String) (now : ℕ)
    → IsPolicy p
    → IsValid p r
    → IsValid p (reserve p r key now).1
unfolding reserve
reserve-IsValid p r key now q v = elim (Option-cases (lookup key r.entries)) [
  | inl absent ↦
      rw (absent, reserve)
        (reserve_new-IsValid p (make_room p r now) key (make_room-IsValid p r now q v)
          (make_room-absent p r key now absent))
  | inr (e, found) ↦ elim (Bool-cases (ltb 0 (retry_after p e now))) [
    | inl delayed ↦ rw (found, reserve, delayed) v
    | inr free ↦
        rw (found, reserve, free)
          (replaced-IsValid p r key e (with_attempt e) v found (
            with_attempt-IsSound p r.next_expiry_check now r.expiry_check_known e
              (AllValues-lookup (IsSound p r.next_expiry_check r.expiry_check_known) key e r.entries
                v.sound found)
              free))
  ]
]

settle-Fits :
    (p : Policy) (e : LoginFailureEntry) (o : LoginAttemptOutcome) (now : ℕ)
    → 0 < now
    → IsPaced p e
    → IsCoherent e
    → 0 < e.in_flight_attempts
    → IsPaced p (settle p e o now) × IsCoherent (settle p e o now)
unfolding settle count_failure
settle-Fits p e abandoned now h paced coherent flying = (ground arith, coherent)
settle-Fits p e failed now h paced coherent flying = (ground arith, ground arith)
settle-Fits p e succeeded now h paced coherent flying = (ground arith, inl (refl, refl, refl))

expiry_step-Covers :
    (expiry : ℕ) (acc : ℕ × Bool) (x : ℕ) → Covers acc x → Covers (expiry_step expiry acc) x
unfolding expiry_step
expiry_step-Covers expiry acc x c = ground arith

expiry_step-Covers_own :
    (expiry : ℕ) (acc : ℕ × Bool) → 0 < expiry → Covers (expiry_step expiry acc) expiry
unfolding expiry_step
expiry_step-Covers_own expiry acc h = ground arith

expiry_pos :
    (p : Policy) (e : LoginFailureEntry)
    → IsCoherent e
    → 0 < e.failure_count
    → 0 < login_failure_entry_expiry e p.window
unfolding login_failure_entry_expiry
expiry_pos p e c h = ground arith

store_settled-IsValid :
    (p : Policy) (r : Registry) (key : String) (old e : LoginFailureEntry) (now : ℕ)
    → IsValid p r
    → lookup key r.entries ≡ some old
    → IsPaced p e
    → IsCoherent e
    → IsValid p (store_settled p r key e now)
unfolding store_settled record_failure_expiry
store_settled-IsValid p r key old e now v found paced coherent =
    let acc : ℕ × Bool = (r.next_expiry_check, r.expiry_check_known) in
    let expiry = login_failure_entry_expiry e p.window in
    let same = length-insert_old key e old r.entries found in
    let fewer = length-erase key old r.entries v.unique found in
    elim (Bool-cases
      (eqb e.in_flight_attempts 0 && eqb e.failure_count 0 && leb e.locked_until now)) [
        | inl spent ↦ rw spent (record {
          unique = erase-Unique key r.entries v.unique;
          bounded = omega (arith, fewer, v.bounded);
          counted = omega (arith, fewer, v.counted);
          sound =
              AllValues-erase (IsSound p r.next_expiry_check r.expiry_check_known) key r.entries
                v.sound;
        })
        | inr stays ↦ elim (Bool-cases (eqb e.in_flight_attempts 0)) [
          | inr flying ↦
              rw (stays, flying)
                (replaced-IsValid p r key old e v found (paced, coherent, inl (ground arith)))
          | inl idle ↦
              let count : 0 < e.failure_count = ground arith in
              let own = expiry_step-Covers_own expiry acc (expiry_pos p e coherent count) in
              rw (stays, idle)
                (record {
                  unique = insert-Unique key e r.entries v.unique;
                  bounded = omega (arith, same, v.bounded);
                  counted = omega (arith, same, v.counted);
                  sound =
                      AllValues-insert
                        (IsSound p (expiry_step expiry acc).0 (expiry_step expiry acc).1) key e
                        r.entries
                        (sooner-IsSound p acc (expiry_step expiry acc) r.entries
                          (expiry_step-Covers expiry acc) v.sound)
                        (paced, coherent, inr (count, own.0, own.1));
                })
        ]
      ]

-- At a time other than the zero time, completing a reservation keeps a valid registry valid, whatever
-- the outcome, and also where the reservation is stale.
pub complete-IsValid :
    (p : Policy) (r : Registry) (key : String) (id : ℕ) (o : LoginAttemptOutcome) (now : ℕ)
    → 0 < now
    → IsValid p r
    → IsValid p (complete p r key id o now)
unfolding complete
complete-IsValid p r key id o now h v = elim (Option-cases (lookup key r.entries)) [
  | inl absent ↦ rw (absent, complete) v
  | inr (e, found) ↦ elim (Bool-cases (not (eqb e.id id) || eqb e.in_flight_attempts 0)) [
    | inl stale ↦ rw (found, complete, stale) v
    | inr current ↦
        let s =
          AllValues-lookup (IsSound p r.next_expiry_check r.expiry_check_known) key e r.entries
            v.sound found in
        let (paced, coherent) = settle-Fits p e o now h s.0 s.1 (ground arith) in
        rw (found, complete, current)
          (store_settled-IsValid p r key e (settle p e o now) now v found paced coherent)
  ]
]
