-- ===== src/Usage/Middleware.antt =====
-- internal/usage/middleware.go, and its place behind internal/quota: a tool call is served, its reservation
-- completed with its outcome, and its usage recorded. The handler behind it is given by how it ends. The
-- capture for debugging is not modelled, and the writer of usage records is there.
pub mod Settlement
mod Tests
use grok_search_mcp.Base.{
  ℕ, ◌+◌, String, Bool, true, false, not, ◌&&◌, ◌||◌, Option, none, some, leb, ltb, if◌then◌else◌,
}
use grok_search_mcp.Base.Keys.{◌==◌, string_key}
use grok_search_mcp.Http.{AuthenticatedUser, Context, Verdict, forward, reject, bad_request}
use grok_search_mcp.Store.{SuccessQuotaReservation, Database}
use grok_search_mcp.Store.Quota.{is_valid, complete_success_call}
use grok_search_mcp.Store.Quota.Middleware.{Admission, quota_middleware}
use grok_search_mcp.Usage.Outcome.{ToolOutcome, outcome}
use grok_search_mcp.Usage.Routing.{JsonRpcRequestInspection}

-- What the recorder and the marker hold when the handler has returned.
pub record Response : Type 0 where
  pub status : ℕ
  pub marked : ToolOutcome
  pub reports_error : Bool

pub data HandlerEnd : Type 0 where
  returns : Response → HandlerEnd
  panics : HandlerEnd

-- `UsageRecord`, less its times and captures.
pub record UsageRecord : Type 0 where
  pub key_id : String
  pub tool_name : String
  pub success : Bool

-- What the request's context holds.
pub record UsageContext : Type 0 where
  pub key_id : Option String
  pub tool_name : Option String
  pub user : Option AuthenticatedUser
  pub reservation : Option (String × SuccessQuotaReservation)

-- The database after a call, whether its search permit was released before the completion, the record
-- that was enqueued, and whether the panic was raised again.
pub record Served : Type 0 where
  pub verdict : Verdict
  pub db : Database
  pub releases_permit : Bool
  pub enqueued : Option UsageRecord
  pub repanics : Bool

-- `success` of `MCPMiddleware`
unfoldable pub is_success : Response → Bool
is_success response =
    let marked = outcome response.marked in
    leb 200 response.status
    && ltb response.status 300
    && (if marked.1 then marked.0 else not response.reports_error)

-- `completeReservedSuccessCall`: the database, and whether the search permit is released.
unfoldable pub complete_reserved_success_call :
    (String → String) → Database → String × SuccessQuotaReservation → Bool → Database × Bool
complete_reserved_success_call trim db (id, r) succeeded =
    if is_valid trim id r
    then ((complete_success_call trim db id r succeeded).1, not succeeded)
    else (db, false)

-- The reservation of the context, where it is the user's.
unfoldable pub own_reservation :
    (String → String) → UsageContext → Option (String × SuccessQuotaReservation)
own_reservation trim context = elim context.reservation [
  | none ↦ none
  | some held ↦ elim context.user [
    | none ↦ none
    | some user ↦
        if is_valid trim held.0 held.1 && (held.1.user_id == user.id) then some held else none
  ]
]

-- `completeQuotaOnce`, which is called once on each path.
unfoldable pub complete_quota_once :
    (String → String)
    → Database
    → Option (String × SuccessQuotaReservation)
    → Bool
    → Database × Bool
complete_quota_once trim db none succeeded = (db, false)
complete_quota_once trim db (some held) succeeded =
    complete_reserved_success_call trim db held succeeded

-- The call of the next handler, and what follows from its end.
unfoldable pub serve_call :
    (String → String) → Database → UsageContext → String → String → HandlerEnd → Served
serve_call trim db context key_id tool panics =
    let completed = complete_quota_once trim db (own_reservation trim context) false in
    record {
      verdict = forward;
      db = completed.0;
      releases_permit = completed.1;
      enqueued = none;
      repanics = true;
    }
serve_call trim db context key_id tool (returns response) =
    let success = is_success response in
    let completed = complete_quota_once trim db (own_reservation trim context) success in
    record {
      verdict = forward;
      db = completed.0;
      releases_permit = completed.1;
      enqueued = some (record { key_id = key_id; tool_name = tool; success = success });
      repanics = false;
    }

-- The request passes with nothing recorded.
unfoldable pub pass_through : Database → HandlerEnd → Served
pass_through db panics = record {
  verdict = forward;
  db = db;
  releases_permit = false;
  enqueued = none;
  repanics = true;
}
pass_through db (returns response) = record {
  verdict = forward;
  db = db;
  releases_permit = false;
  enqueued = none;
  repanics = false;
}

unfoldable pub refuse : Database → String → Served
refuse db message = record {
  verdict = reject bad_request message none;
  db = db;
  releases_permit = false;
  enqueued = none;
  repanics = false;
}

-- `MCPMiddleware`, with the inspection that it makes where no tool name was extracted.
unfoldable pub usage_middleware :
    (String → String) → Database → UsageContext → JsonRpcRequestInspection → HandlerEnd → Served
usage_middleware trim db context inspection end = elim context.key_id [
  | none ↦ pass_through db end
  | some key_id ↦ elim context.tool_name [
    | some tool ↦
        if tool == "" then pass_through db end else serve_call trim db context key_id tool end
    | none ↦
        if inspection.is_batch_request
        then refuse db "JSON-RPC batch requests are not supported"
        else if inspection.has_ambiguous_tool_routing_fields
        then refuse db "Ambiguous JSON-RPC tool routing fields are not supported"
        else if inspection.tool_name == ""
        then pass_through db end
        else serve_call trim db context key_id inspection.tool_name end
  ]
]

-- What follows the answer of the quota middleware.
unfoldable pub serve_admitted :
    (String → String)
    → Context
    → String
    → JsonRpcRequestInspection
    → HandlerEnd
    → Admission × Database
    → Served
serve_admitted trim context key_id inspection end (admission, db) = elim admission.verdict [
  | forward ↦
      usage_middleware trim db
        (record {
          key_id = some key_id;
          tool_name = context.tool_name;
          user = context.user;
          reservation = admission.reservation;
        })
        inspection end
  | reject status message retry_after ↦ record {
    verdict = reject status message retry_after;
    db = db;
    releases_permit = false;
    enqueued = none;
    repanics = false;
  }
]

-- Quota -> Usage -> MCP, of a request with a key.
unfoldable pub serve_tool_call :
    (String → String)
    → Database
    → Context
    → String
    → JsonRpcRequestInspection
    → String
    → ℕ
    → HandlerEnd
    → Served
serve_tool_call trim db context key_id inspection id period end =
    serve_admitted trim context key_id inspection end (quota_middleware trim db context id period)
