-- ===== src/Store/Quota/Middleware.antt =====
-- internal/quota/middleware.go: a tool call passes with a reservation of its user.
use grok_search_mcp.Base.{
  ℕ, zero, suc, ◌≤◌, leb, arith, Bool, false, ◌≡◌, refl, inl, inr, String, true, Option, none, some,
  not, if◌then◌else◌, Bool-cases, Option-cases, ◌||◌,
}
use grok_search_mcp.Base.Keys.{◌==◌, string_key, beq_self}
use grok_search_mcp.Base.Assoc.{lookup}
use grok_search_mcp.Base.Results.{Result, ok, error}
use grok_search_mcp.Http.{
  AuthenticatedUser, Context, Verdict, forward, reject, forbidden, too_many_requests,
  internal_server_error,
}
use grok_search_mcp.Store.{
  SuccessQuotaReservation, Database, StoreError, user_not_found, quota_success,
}
use grok_search_mcp.Base.Int.{ℤ, pos, negsuc}
use grok_search_mcp.Store.Quota.Ledger.{Ledger, total, Books, effective_calls-total}
use grok_search_mcp.Store.Quota.{
  is_valid, is_within, insert_reservation, reserve_success_call, reserve_in,
}

-- What the middleware answers, and the reservation that the next handler finds in its context.
pub record Admission : Type 0 where
  pub verdict : Verdict
  pub reservation : Option (String × SuccessQuotaReservation)

-- The status and message of a failed reservation.
unfoldable pub quota_error : StoreError → Verdict
quota_error quota_success = reject too_many_requests "success request limit exceeded" none
quota_error user_not_found = reject forbidden "user not found" none
quota_error other = reject internal_server_error "quota check failed" none

unfoldable pub admit :
    (String → String)
    → AuthenticatedUser
    → Result StoreError (String × SuccessQuotaReservation)
    → Admission
admit trim user (error e) = record { verdict = quota_error e; reservation = none }
admit trim user (ok (id, r)) =
    if not (is_valid trim id r) || not (r.user_id == user.id)
    then record {
      verdict = reject internal_server_error "quota check failed" none;
      reservation = none;
    }
    else record { verdict = forward; reservation = some (id, r) }

-- `MCPMiddleware`, where a missing tool name is the empty one, with the random id and the month of the
-- reservation that it makes.
unfoldable pub quota_middleware :
    (String → String) → Database → Context → String → ℕ → Admission × Database
quota_middleware trim db context id period = elim context.tool_name [
  | none ↦ (record { verdict = forward; reservation = none }, db)
  | some tool ↦
      if tool == ""
      then (record { verdict = forward; reservation = none }, db)
      else elim context.user [
        | none ↦ (record { verdict = forward; reservation = none }, db)
        | some user ↦
            let reserved = reserve_success_call db id user.id user.success_limit period in
            (admit trim user reserved.0, reserved.1)
      ]
]

-- The answer by what the calls of the month are: those that are reserved now and those that ended with
-- success. A limit that is not positive allows every number.
unfoldable pub is_spent : ℤ → ℕ → Bool
is_spent (pos zero) calls = false
is_spent (pos (suc n)) calls = leb (suc n) calls
is_spent (negsuc n) calls = false

abbrev pub passes : Option (String × SuccessQuotaReservation) → Admission
passes reservation = record { verdict = forward; reservation = reservation }

abbrev pub refuses : ℕ → String → Admission
refuses status message = record { verdict = reject status message none; reservation = none }

unfoldable pub user_answer : Ledger → AuthenticatedUser → String → ℕ → Admission
user_answer l user id period = elim (lookup user.id l.db.users) [
  | none ↦ refuses forbidden "user not found"
  | some u ↦
      if is_spent user.success_limit (total l user.id period)
      then refuses too_many_requests "success request limit exceeded"
      else passes (some (id, record { user_id = user.id; period = period }))
]

unfoldable pub quota_answer : Ledger → Context → String → ℕ → Admission
quota_answer l context id period = elim context.tool_name [
  | none ↦ passes none
  | some tool ↦ elim context.user [
    | none ↦ passes none
    | some user ↦ if tool == "" then passes none else user_answer l user id period
  ]
]

is_within_lem : (limit : ℤ) (calls : ℕ) → is_within limit calls ≡ not (is_spent limit calls)
unfolding is_within is_spent
is_within_lem (pos zero) calls = refl
is_within_lem (pos (suc n)) calls = ground arith
is_within_lem (negsuc n) calls = refl

reserved_answer :
    (trim : String → String) (l : Ledger) (clock : ℕ) (user : AuthenticatedUser) (id : String)
    (period : ℕ)
    → Books clock l.db.users (total l)
    → clock ≤ period
    → is_valid trim id (record { user_id = user.id; period = period }) ≡ true
    → lookup id l.db.reservations ≡ none
    → admit trim user (reserve_success_call l.db id user.id user.success_limit period).0
      ≡ user_answer l user id period
unfolding reserve_success_call reserve_in insert_reservation admit quota_error user_answer Books
    lookup
reserved_answer trim l clock user id period books order good fresh =
    elim (Option-cases (lookup user.id l.db.users)) [
      | inl gone ↦ rw (gone, reserve_in, user_answer) refl
      | inr (u, found) ↦
          let counted =
            effective_calls-total clock period (total l user.id) u order (books user.id u found) in
          let decided = is_within_lem user.success_limit (total l user.id period) in
          elim (Bool-cases (is_spent user.success_limit (total l user.id period))) [
            | inl spent ↦ rw (found, reserve_in, user_answer, counted, decided, spent) refl
            | inr left ↦
                rw
                  (
                    found,
                    reserve_in,
                    user_answer,
                    counted,
                    decided,
                    left,
                    fresh,
                    insert_reservation,
                    good,
                    beq_self user.id,
                  )
                  refl
          ]
    ]

-- Where the counters of the users are true, every request is answered by the calls of its month that are
-- reserved or ended with success: one without a tool or without a user passes as it is, a user who is gone
-- gets 403, one whose calls have reached its positive limit gets 429, and any other passes with the new
-- reservation. The reservation's id is one that is valid with the request's user and not in use, and the
-- month is not before the months of the counters.
pub quota_middleware-answer :
    (trim : String → String) (l : Ledger) (clock : ℕ) (context : Context) (id : String) (period : ℕ)
    → Books clock l.db.users (total l)
    → clock ≤ period
    → ((user : AuthenticatedUser)
        → context.user ≡ some user
        → is_valid trim id (record { user_id = user.id; period = period }) ≡ true)
    → lookup id l.db.reservations ≡ none
    → (quota_middleware trim l.db context id period).0 ≡ quota_answer l context id period
unfolding quota_middleware quota_answer
quota_middleware-answer trim l clock context id period books order good fresh =
    elim (Option-cases context.tool_name) [
      | inl unnamed ↦ rw (unnamed, quota_middleware, quota_answer) refl
      | inr (tool, named) ↦ elim (Option-cases context.user) [
        | inl unknown ↦ elim (Bool-cases (tool == "")) [
          | inl empty ↦ rw (named, unknown, quota_middleware, quota_answer, empty) refl
          | inr given ↦ rw (named, unknown, quota_middleware, quota_answer, given) refl
        ]
        | inr (user, known) ↦ elim (Bool-cases (tool == "")) [
          | inl empty ↦ rw (named, known, quota_middleware, quota_answer, empty) refl
          | inr given ↦
              rw (named, known, quota_middleware, quota_answer, given)
                (reserved_answer trim l clock user id period books order (good user known) fresh)
        ]
      ]
    ]
