-- ===== src/Store/Quota.antt =====
-- internal/store/users.go, the success-call quota: a call is reserved before a tool runs, and its
-- reservation is completed once. A month is a number, so that the text of a period is always valid.
pub mod Ledger
pub mod Charges
pub mod Histories
pub mod Completion
pub mod Middleware
mod Tests
use grok_search_mcp.Base.{
  ℕ, zero, suc, ◌+◌, ◌-◌, String, Bool, true, false, not, ◌&&◌, Option, none, some, List, ◌∷◌, ltb,
  eqb, if◌then◌else◌,
}
use grok_search_mcp.Base.Int.{ℤ, pos, negsuc}
use grok_search_mcp.Base.Keys.{◌==◌, string_key}
use grok_search_mcp.Base.Assoc.{lookup, insert, erase}
use grok_search_mcp.Base.Results.{Result, ok, error}
use grok_search_mcp.Store.{
  User, SuccessQuotaReservation, Database, StoreError, user_not_found, quota_success,
  invalid_reservation, duplicate_reservation,
}
use grok_search_mcp.Store.Transaction.{Transaction, begin, exec, commit, transact}

-- `SuccessQuotaReservation.IsValid`, of the reservation with that id.
unfoldable pub is_valid : (String → String) → String → SuccessQuotaReservation → Bool
is_valid trim id r = not (trim id == "") && not (trim r.user_id == "")

-- `CASE WHEN success_period = ? THEN success_calls ELSE 0 END`
unfoldable pub effective_calls : ℕ → User → ℕ
effective_calls period u = if eqb u.success_period period then u.success_calls else 0

-- `? <= 0 OR calls < ?`
unfoldable pub is_within : ℤ → ℕ → Bool
is_within (pos zero) calls = true
is_within (pos (suc n)) calls = ltb calls (suc n)
is_within (negsuc n) calls = true

abbrev pub count_call : ℕ → User → User
count_call period u = record u {
  success_calls = effective_calls period u + 1;
  success_period = period;
}

-- The first statement of `ReserveSuccessCall`, for a user whose limit allows it.
abbrev pub charge_row : SuccessQuotaReservation → User → Database → Database
charge_row r u db = record db { users = insert r.user_id (count_call r.period u) db.users }

-- The insertion of the reservation, and the commit; an id that is there violates the primary key.
unfoldable pub insert_reservation :
    Transaction
    → String
    → SuccessQuotaReservation
    → Result StoreError (String × SuccessQuotaReservation) × Transaction
insert_reservation tx id r = elim (lookup id tx.working.reservations) [
  | some held ↦ (error duplicate_reservation, tx)
  | none ↦ (
    ok (id, r),
    commit (exec (λ db. record db { reservations = insert id r db.reservations }) tx),
  )
]

-- `ReserveSuccessCall`, in its transaction.
unfoldable pub reserve_in :
    Transaction
    → String
    → String
    → ℤ
    → ℕ
    → Result StoreError (String × SuccessQuotaReservation) × Transaction
reserve_in tx id user_id limit period = elim (lookup user_id tx.working.users) [
  | none ↦ (error user_not_found, tx)
  | some u ↦
      let r : SuccessQuotaReservation = record { user_id = user_id; period = period } in
      if is_within limit (effective_calls period u)
      then insert_reservation (exec (charge_row r u) tx) id r
      else (error quota_success, tx)
]

-- `ReserveSuccessCall` with the random id that it draws.
unfoldable pub reserve_success_call :
    Database
    → String
    → String
    → ℤ
    → ℕ
    → Result StoreError (String × SuccessQuotaReservation) × Database
reserve_success_call db id user_id limit period =
    transact (λ tx. reserve_in tx id user_id limit period) db

abbrev pub same_reservation : SuccessQuotaReservation → SuccessQuotaReservation → Bool
same_reservation held r = (held.user_id == r.user_id) && eqb held.period r.period

abbrev pub refund_call : ℕ → User → User
refund_call period u =
    if eqb u.success_period period && ltb 0 u.success_calls
    then record u { success_calls = u.success_calls - 1 }
    else u

unfoldable pub refund : SuccessQuotaReservation → List (String × User) → List (String × User)
refund r users = elim (lookup r.user_id users) [
  | none ↦ users
  | some u ↦ insert r.user_id (refund_call r.period u) users
]

-- The row that `CompleteSuccessCall` deletes, if it is there.
unfoldable pub is_held : Database → String → SuccessQuotaReservation → Bool
is_held db id r = elim (lookup id db.reservations) [
  | none ↦ false
  | some held ↦ same_reservation held r
]

-- The statements of `CompleteSuccessCall` where the row is there: the deletion, and for a failed call the
-- update of the counter.
unfoldable pub finish_call : Database → String → SuccessQuotaReservation → Bool → Database
finish_call db id r succeeded = record db {
  users = if succeeded then db.users else refund r db.users;
  reservations = erase id db.reservations;
}

-- `CompleteSuccessCall`, in its transaction; `none` is no error.
unfoldable pub complete_in :
    Transaction → String → SuccessQuotaReservation → Bool → Option StoreError × Transaction
complete_in tx id r succeeded =
    if is_held tx.working id r
    then (none, commit (exec (λ db. finish_call db id r succeeded) tx))
    else (none, commit tx)

-- `CompleteSuccessCall`
unfoldable pub complete_success_call :
    (String → String)
    → Database
    → String
    → SuccessQuotaReservation
    → Bool
    → Option StoreError × Database
complete_success_call trim db id r succeeded =
    if not (is_valid trim id r)
    then (some invalid_reservation, db)
    else transact (λ tx. complete_in tx id r succeeded) db
