-- ===== src/Usage/Middleware/Settlement.antt =====
-- middleware.go: no tool call that is admitted leaves its reservation behind.
use grok_search_mcp.Base.{
  ℕ, ◌+◌, ◌≡◌, ◌≢◌, refl, String, Bool, true, false, Option, none, some, eqb, ◌∙◌, ap, arith,
}
use grok_search_mcp.Base.Count.{one_if}
use grok_search_mcp.Base.Keys.{string_key, beq_self, beq_of_ne}
use grok_search_mcp.Base.Assoc.{lookup, insert, lookup-insert_self, erase-insert_new}
use grok_search_mcp.Http.{AuthenticatedUser, Context, forward}
use grok_search_mcp.Store.{StoreError, User, SuccessQuotaReservation, Database}
use grok_search_mcp.Store.Quota.{
  is_valid, effective_calls, is_within, count_call, is_held, finish_call, complete_success_call,
  reserve_success_call, reserve_in, insert_reservation,
}
use grok_search_mcp.Store.Quota.Completion.{complete-held, refund_call-count_call, refund-insert}
use grok_search_mcp.Store.Quota.Middleware.{Admission, quota_middleware, admit}
use grok_search_mcp.Usage.Routing.{JsonRpcRequestInspection}
use grok_search_mcp.Usage.Middleware.{
  HandlerEnd, returns, panics, is_success, complete_reserved_success_call, own_reservation,
  complete_quota_once, serve_call, usage_middleware, serve_tool_call, serve_admitted,
}

-- Whether the call counts.
unfoldable pub succeeds : HandlerEnd → Bool
succeeds panics = false
succeeds (returns response) = is_success response

-- The database with a call of the user reserved.
abbrev reserved_db : Database → String → SuccessQuotaReservation → User → Database
reserved_db db id r u = record db {
  users = insert r.user_id (count_call r.period u) db.users;
  reservations = insert id r db.reservations;
}

-- The database in which the call counts if it succeeded.
abbrev pub settled_db : Database → SuccessQuotaReservation → User → Bool → Database
settled_db db r u succeeded = record db {
  users =
      insert r.user_id
        (record u {
          success_calls = effective_calls r.period u + one_if succeeded;
          success_period = r.period;
        })
        db.users;
}

reserved-is_held :
    (db : Database) (id : String) (r : SuccessQuotaReservation) (u : User)
    → is_held (reserved_db db id r u) id r ≡ true
unfolding is_held
reserved-is_held db id r u =
    let same : eqb r.period r.period ≡ true = ground arith in
    rw (lookup-insert_self id r db.reservations, is_held, beq_self r.user_id, same) refl

settle :
    (trim : String → String) (db : Database) (id : String) (r : SuccessQuotaReservation) (u : User)
    (succeeded : Bool)
    → is_valid trim id r ≡ true
    → lookup id db.reservations ≡ none
    → (complete_success_call trim (reserved_db db id r u) id r succeeded).1
      ≡ settled_db db r u succeeded
unfolding finish_call is_held
settle trim db id r u true good fresh =
    ap (λ (x : Option StoreError × Database). x.1)
      (complete-held trim (reserved_db db id r u) id r true good (reserved-is_held db id r u))
    ∙ rw (erase-insert_new id r db.reservations fresh) refl
settle trim db id r u false good fresh =
    let no_more : effective_calls r.period u + 0 ≡ effective_calls r.period u = omega arith in
    ap (λ (x : Option StoreError × Database). x.1)
      (complete-held trim (reserved_db db id r u) id r false good (reserved-is_held db id r u))
    ∙ rw
        (
          erase-insert_new id r db.reservations fresh,
          refund-insert r (count_call r.period u) db.users,
          refund_call-count_call r.period u,
          no_more,
        )
        refl

serve_call-settles :
    (trim : String → String) (db : Database) (key_id tool id : String) (user : AuthenticatedUser)
    (period : ℕ) (u : User) (end : HandlerEnd)
    → is_valid trim id (record { user_id = user.id; period = period }) ≡ true
    → lookup id db.reservations ≡ none
    → (serve_call trim
        (reserved_db db id (record { user_id = user.id; period = period }) u)
        (record {
          key_id = some key_id;
          tool_name = some tool;
          user = some user;
          reservation = some (id, record { user_id = user.id; period = period });
        })
        key_id
        tool
        end).db
      ≡ settled_db db (record { user_id = user.id; period = period }) u (succeeds end)
unfolding serve_call succeeds own_reservation complete_quota_once complete_reserved_success_call
serve_call-settles trim db key_id tool id user period u panics good fresh =
    rw (good, beq_self user.id, good)
      (settle trim db id (record { user_id = user.id; period = period }) u false good fresh)
serve_call-settles trim db key_id tool id user period u (returns response) good fresh =
    rw (good, beq_self user.id, good)
      (settle trim db id (record { user_id = user.id; period = period }) u (is_success response)
        good fresh)

quota_middleware-admits :
    (trim : String → String) (db : Database) (context : Context) (id : String) (period : ℕ)
    (tool : String) (user : AuthenticatedUser) (u : User)
    → context.tool_name ≡ some tool
    → tool ≢ ""
    → context.user ≡ some user
    → lookup user.id db.users ≡ some u
    → is_within user.success_limit (effective_calls period u) ≡ true
    → is_valid trim id (record { user_id = user.id; period = period }) ≡ true
    → lookup id db.reservations ≡ none
    → quota_middleware trim db context id period ≡ (
      record {
        verdict = forward;
        reservation = some (id, record { user_id = user.id; period = period });
      },
      reserved_db db id (record { user_id = user.id; period = period }) u,
    )
unfolding quota_middleware reserve_success_call reserve_in lookup insert_reservation admit
quota_middleware-admits trim db context id period tool user u named nonempty known found within good
      fresh =
    rw
      (
        named,
        beq_of_ne tool "" nonempty,
        known,
        quota_middleware,
        found,
        reserve_in,
        within,
        fresh,
        insert_reservation,
        good,
        beq_self user.id,
      )
      refl

usage_middleware-serves :
    (trim : String → String) (db : Database) (key_id : String)
    (inspection : JsonRpcRequestInspection) (end : HandlerEnd) (tool : String)
    (tool_name : Option String) (caller : Option AuthenticatedUser) (user : AuthenticatedUser)
    (held : Option (String × SuccessQuotaReservation))
    → tool_name ≡ some tool
    → tool ≢ ""
    → caller ≡ some user
    → usage_middleware trim db
        (record { key_id = some key_id; tool_name = tool_name; user = caller; reservation = held })
        inspection
        end
      ≡ serve_call trim db
          (record {
            key_id = some key_id;
            tool_name = some tool;
            user = some user;
            reservation = held;
          })
          key_id
          tool
          end
unfolding usage_middleware serve_call own_reservation
usage_middleware-serves trim db key_id inspection end tool tool_name caller user held named nonempty
      known =
    rw (named, known, beq_of_ne tool "" nonempty) refl

-- A call of a named tool that the quota admits ends in the database in which its reservation is gone and
-- its user's counter of the month is one more than before if the response is a success, and as before if
-- it is a failure or the handler panicked. The reservation's id is one that is valid and not in use.
pub serve_tool_call-settles :
    (trim : String → String) (db : Database) (context : Context) (key_id : String)
    (inspection : JsonRpcRequestInspection) (id : String) (period : ℕ) (end : HandlerEnd)
    (tool : String) (user : AuthenticatedUser) (u : User)
    → context.tool_name ≡ some tool
    → tool ≢ ""
    → context.user ≡ some user
    → lookup user.id db.users ≡ some u
    → is_within user.success_limit (effective_calls period u) ≡ true
    → is_valid trim id (record { user_id = user.id; period = period }) ≡ true
    → lookup id db.reservations ≡ none
    → (serve_tool_call trim db context key_id inspection id period end).db
      ≡ settled_db db (record { user_id = user.id; period = period }) u (succeeds end)
unfolding serve_tool_call serve_admitted
serve_tool_call-settles trim db context key_id inspection id period end tool user u named nonempty
      known found within good fresh =
    let r : SuccessQuotaReservation = record { user_id = user.id; period = period } in
    ap (λ (a : Admission × Database). (serve_admitted trim context key_id inspection end a).db)
      (quota_middleware-admits trim db context id period tool user u named nonempty known found
        within good fresh)
    ∙ rw
        (usage_middleware-serves trim (reserved_db db id r u) key_id inspection end tool
          context.tool_name context.user user (some (id, r)) named nonempty known)
        (serve_call-settles trim db key_id tool id user period u end good fresh)
