-- ===== src/Store/Quota/Tests.antt =====
-- The success-call quota on concrete inputs: a user with a limit of two calls a month.
use grok_search_mcp.Base.{
  ◌≤◌, ◌≡◌, refl, subst, String, true, false, none, some, List, [], ◌∷◌, arith, inl, inr,
  Bool-cases,
}
use grok_search_mcp.Base.Int.{pos}
use grok_search_mcp.Base.Keys.{◌==◌, string_key}
use grok_search_mcp.Base.Assoc.{lookup, insert}
use grok_search_mcp.Base.Count.{count_by}
use grok_search_mcp.Http.{AuthenticatedUser, Context, too_many_requests}
use grok_search_mcp.Store.{role_user, User, SuccessQuotaReservation, Database}
use grok_search_mcp.Store.Quota.{
  is_valid, effective_calls, is_within, reserve_success_call, complete_success_call,
}
use grok_search_mcp.Store.Quota.Ledger.{
  charges, Ledger, total, QuotaCall, reserves, completes, Books,
}
use grok_search_mcp.Store.Quota.Histories.{
  LimitsTo, InOrder, IsBalanced, run_quota, last_period, run_quota-IsBalanced,
  run_quota-successes_le,
}
use grok_search_mcp.Store.Quota.Completion.{
  complete_success_call-complete_success_call, complete_success_call-reserve_success_call,
}
use grok_search_mcp.Store.Quota.Middleware.{
  quota_middleware, refuses, is_spent, user_answer, quota_answer, quota_middleware-answer,
}

abbrev same_text : String → String
same_text s = s

abbrev ann : User
ann = record {
  username = "ann";
  password_hash = "x";
  role = role_user;
  enabled = true;
  tier_id = "t";
  success_calls = 0;
  success_period = 6;
  token_version = 0;
  created_at = 1;
  updated_at = 1;
}

abbrev small : Database
small = record {
  users = ("1", ann) ∷ [];
  tiers = ("t", true) ∷ [];
  apikeys = [];
  usage_log = [];
  reservations = [];
}

abbrev of_ann : SuccessQuotaReservation
of_ann = record { user_id = "1"; period = 7 }

-- Three calls, of which the second fails and the last one waits.
abbrev month : List QuotaCall
month =
    reserves "a" "1" (pos 2) 7
    ∷ completes "a" of_ann true
    ∷ reserves "b" "1" (pos 2) 7
    ∷ completes "b" of_ann false
    ∷ reserves "c" "1" (pos 2) 7
    ∷ reserves "d" "1" (pos 2) 7
    ∷ []

month-InOrder : InOrder 2 6 month
unfolding InOrder LimitsTo
month-InOrder = (
  omega arith,
  omega arith,
  (omega arith, omega arith, (omega arith, omega arith, (omega arith, omega arith, tt))),
)

small-counters :
    (id : String) (u : User)
    → lookup id small.users ≡ some u
    → (u.success_calls ≡ 0) × (u.success_period ≤ 6)
unfolding lookup
small-counters id u h = elim (Bool-cases ("1" == id)) [
  | inl same ↦
      let seen : some ann ≡ some u = rw same at h in
      let is_ann : ann ≡ u = cc in
      subst (λ x. (x.success_calls ≡ 0) × (x.success_period ≤ 6)) is_ann (refl, omega arith)
  | inr other ↦ let wrong = rw other at h in absurd (cc)
]

abbrev start : Ledger
start = record { db = small; succeeded = [] }

start-IsBalanced : IsBalanced 2 6 start
unfolding Books total count_by charges
start-IsBalanced = record {
  unique = tt;
  books = λ k u h. record {
    current = (small-counters k u h).1;
    exact = (small-counters k u h).0;
    no_future = λ p late. refl;
  };
  bounded = λ k p. omega arith;
}

run_quota-IsBalanced_example : IsBalanced 2 (last_period 6 month) (run_quota same_text start month)
run_quota-IsBalanced_example =
    run_quota-IsBalanced same_text 2 6 start month month-InOrder start-IsBalanced

run_quota-successes_le_example :
    charges "1" 7 (run_quota same_text (record { db = small; succeeded = [] }) month).succeeded ≤ 2
run_quota-successes_le_example =
    run_quota-successes_le same_text 2 6 small month "1" 7 refl small-counters month-InOrder

-- A database in which a call is reserved.
abbrev reserved : Database
reserved = record small { reservations = ("a", of_ann) ∷ [] }

a-is_valid : is_valid same_text "a" of_ann ≡ true
unfolding is_valid
a-is_valid = refl

complete_success_call-complete_success_call_example :
    complete_success_call same_text
      (complete_success_call same_text reserved "a" of_ann false).1
      "a"
      of_ann
      true
    ≡ (none, (complete_success_call same_text reserved "a" of_ann false).1)
complete_success_call-complete_success_call_example =
    complete_success_call-complete_success_call same_text reserved "a" of_ann false true a-is_valid

ann-is_within : is_within (pos 2) (effective_calls 7 ann) ≡ true
unfolding is_within effective_calls
ann-is_within = refl

ann-lookup : lookup "1" small.users ≡ some ann
unfolding lookup
ann-lookup = refl

none-lookup : lookup "a" small.reservations ≡ none
unfolding lookup
none-lookup = refl

complete_success_call-reserve_success_call_example :
    complete_success_call same_text
      (reserve_success_call small "a" "1" (pos 2) 7).1
      "a"
      of_ann
      false
    ≡ (
      none,
      record small {
        users =
            insert "1"
              (record ann { success_calls = effective_calls 7 ann; success_period = 7 })
              small.users;
      },
    )
complete_success_call-reserve_success_call_example =
    complete_success_call-reserve_success_call same_text small "a" "1" (pos 2) 7 ann a-is_valid
      ann-lookup ann-is_within none-lookup

abbrev caller : AuthenticatedUser
caller = record { id = "1"; rpm = pos 0; success_limit = pos 2 }

abbrev tool_call : Context
tool_call = record { tool_name = some "web_search"; user = some caller }

caller-is_valid :
    (user : AuthenticatedUser)
    → some caller ≡ some user
    → is_valid same_text "a" (record { user_id = user.id; period = 7 }) ≡ true
caller-is_valid user known =
    let same : caller ≡ user = cc in
    subst (λ x. is_valid same_text "a" (record { user_id = x.id; period = 7 }) ≡ true) same
      a-is_valid

quota_middleware-answer_example :
    (quota_middleware same_text small tool_call "a" 7).0 ≡ quota_answer start tool_call "a" 7
quota_middleware-answer_example =
    quota_middleware-answer same_text start 6 tool_call "a" 7 start-IsBalanced.books (omega arith)
      caller-is_valid none-lookup

-- The limit is two calls: with both used up in the month, the next one is refused.
abbrev spent : Ledger
spent = record { db = small; succeeded = of_ann ∷ of_ann ∷ [] }

spent_answer :
    quota_answer spent tool_call "a" 7 ≡ refuses too_many_requests "success request limit exceeded"
unfolding quota_answer user_answer is_spent total charges lookup count_by
spent_answer = refl
