-- ===== src/Store/Quota/Completion.antt =====
-- users.go: the end of a reserved call.
use grok_search_mcp.Base.{
  ℕ, ◌+◌, ◌-◌, ◌≡◌, refl, inl, inr, String, Bool, true, false, none, some, List, arith, ltb,
  Bool-cases, ◌∙◌,
}
use grok_search_mcp.Base.Int.{ℤ}
use grok_search_mcp.Base.Keys.{string_key, nat_key, beq_self}
use grok_search_mcp.Base.Assoc.{
  lookup, insert, lookup-erase_self, lookup-insert_self, erase-insert_new, insert-insert,
}
use grok_search_mcp.Store.{invalid_reservation, User, SuccessQuotaReservation, Database}
use grok_search_mcp.Store.Quota.{
  is_valid, effective_calls, is_within, count_call, insert_reservation, reserve_success_call,
  reserve_in, refund_call, refund, is_held, finish_call, complete_success_call, complete_in,
}

module _ (trim : String → String) where
  pub complete-gone :
      (db : Database) (id : String) (r : SuccessQuotaReservation) (succeeded : Bool)
      → is_valid trim id r ≡ true
      → is_held db id r ≡ false
      → complete_success_call trim db id r succeeded ≡ (none, db)
  unfolding complete_success_call complete_in
  complete-gone db id r succeeded good gone = rw (good, gone) refl

  pub complete-held :
      (db : Database) (id : String) (r : SuccessQuotaReservation) (succeeded : Bool)
      → is_valid trim id r ≡ true
      → is_held db id r ≡ true
      → complete_success_call trim db id r succeeded ≡ (none, finish_call db id r succeeded)
  unfolding complete_success_call complete_in
  complete-held db id r succeeded good held = rw (good, held) refl

  complete-bad :
      (db : Database) (id : String) (r : SuccessQuotaReservation) (succeeded : Bool)
      → is_valid trim id r ≡ false
      → complete_success_call trim db id r succeeded ≡ (some invalid_reservation, db)
  unfolding complete_success_call complete_in
  complete-bad db id r succeeded bad = rw bad refl

finish_call-is_held :
    (db : Database) (id : String) (r s : SuccessQuotaReservation) (succeeded : Bool)
    → is_held (finish_call db id r succeeded) id s ≡ false
unfolding finish_call is_held
finish_call-is_held db id r s succeeded = rw (lookup-erase_self id db.reservations, is_held) refl

pub refund_call-count_call :
    (period : ℕ) (u : User)
    → refund_call period (count_call period u)
      ≡ record u { success_calls = effective_calls period u; success_period = period }
refund_call-count_call period u =
    let calls : effective_calls period u + 1 - 1 ≡ effective_calls period u = omega arith in
    let some_calls : ltb 0 (effective_calls period u + 1) ≡ true = ground arith in
    rw (beq_self period, some_calls, calls) refl

pub refund-insert :
    (r : SuccessQuotaReservation) (w : User) (users : List (String × User))
    → refund r (insert r.user_id w users) ≡ insert r.user_id (refund_call r.period w) users
unfolding refund
refund-insert r w users =
    rw (lookup-insert_self r.user_id w users, refund)
      (insert-insert r.user_id w (refund_call r.period w) users)

-- Completing a reservation a second time is no error where the reservation is valid, and changes nothing
-- more, whatever the two outcomes are.
pub complete_success_call-complete_success_call :
    (trim : String → String) (db : Database) (id : String) (r : SuccessQuotaReservation)
    (first second : Bool)
    → is_valid trim id r ≡ true
    → complete_success_call trim (complete_success_call trim db id r first).1 id r second
      ≡ (none, (complete_success_call trim db id r first).1)
complete_success_call-complete_success_call trim db id r first second good =
    elim (Bool-cases (is_held db id r)) [
      | inr gone ↦
          rw (complete-gone trim db id r first good gone)
            (complete-gone trim db id r second good gone)
      | inl held ↦ rw (complete-held trim db id r first good held) (
          complete-gone trim (finish_call db id r first) id r second good
            (finish_call-is_held db id r r first))
    ]

pub reserve-fresh :
    (db : Database) (id user_id : String) (limit : ℤ) (period : ℕ) (u : User)
    → lookup user_id db.users ≡ some u
    → is_within limit (effective_calls period u) ≡ true
    → lookup id db.reservations ≡ none
    → (reserve_success_call db id user_id limit period).1 ≡ record db {
      users = insert user_id (count_call period u) db.users;
      reservations = insert id (record { user_id = user_id; period = period }) db.reservations;
    }
unfolding reserve_success_call reserve_in lookup insert_reservation
reserve-fresh db id user_id limit period u found within fresh =
    rw (found, reserve_in, within, fresh, insert_reservation) refl

-- Where a call is reserved for a user and fails, the reservations are as before, and of the user's row
-- only the counter's month may differ: it counts the calls of the month that were there before.
pub complete_success_call-reserve_success_call :
    (trim : String → String) (db : Database) (id user_id : String) (limit : ℤ) (period : ℕ)
    (u : User)
    → is_valid trim id (record { user_id = user_id; period = period }) ≡ true
    → lookup user_id db.users ≡ some u
    → is_within limit (effective_calls period u) ≡ true
    → lookup id db.reservations ≡ none
    → complete_success_call trim
        (reserve_success_call db id user_id limit period).1
        id
        (record { user_id = user_id; period = period })
        false
      ≡ (
        none,
        record db {
          users =
              insert user_id
                (record u { success_calls = effective_calls period u; success_period = period })
                db.users;
        },
      )
unfolding is_held finish_call refund
complete_success_call-reserve_success_call trim db id user_id limit period u good found within
      fresh =
    let r : SuccessQuotaReservation = record { user_id = user_id; period = period } in
    let after : Database = record db {
      users = insert user_id (count_call period u) db.users;
      reservations = insert id r db.reservations;
    } in
    let held : is_held after id r ≡ true =
      rw (lookup-insert_self id r db.reservations, is_held, beq_self user_id, beq_self period)
        refl in
    rw (reserve-fresh db id user_id limit period u found within fresh) (
      complete-held trim after id r false good held
      ∙ rw
          (
            refund-insert r (count_call period u) db.users,
            refund_call-count_call period u,
            erase-insert_new id r db.reservations fresh,
          )
          refl)
