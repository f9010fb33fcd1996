-- ===== src/Usage/Middleware/Tests.antt =====
-- A tool call on concrete inputs.
use grok_search_mcp.Base.{◌≡◌, refl, String, true, false, none, some, [], ◌∷◌}
use grok_search_mcp.Base.Int.{pos}
use grok_search_mcp.Base.Keys.{string_key, ne_of_beq}
use grok_search_mcp.Base.Assoc.{lookup}
use grok_search_mcp.Http.{AuthenticatedUser, Context}
use grok_search_mcp.Store.{role_user, User, SuccessQuotaReservation, Database}
use grok_search_mcp.Store.Quota.{is_valid, effective_calls, is_within}
use grok_search_mcp.Usage.Outcome.{tool_outcome_success}
use grok_search_mcp.Usage.Routing.{no_inspection}
use grok_search_mcp.Usage.Middleware.{HandlerEnd, returns, serve_tool_call}
use grok_search_mcp.Usage.Middleware.Settlement.{succeeds, settled_db, serve_tool_call-settles}

abbrev same_text : String → String
same_text s = s

abbrev ann : User
ann = record {
  username = "ann";
  password_hash = "x";
  role = role_user;
  enabled = true;
  tier_id = "t";
  success_calls = 1;
  success_period = 7;
  token_version = 0;
  created_at = 1;
  updated_at = 1;
}

abbrev small : Database
small = record {
  users = ("1", ann) ∷ [];
  tiers = [];
  apikeys = [];
  usage_log = [];
  reservations = [];
}

abbrev of_ann : SuccessQuotaReservation
of_ann = record { user_id = "1"; period = 7 }

abbrev caller : AuthenticatedUser
caller = record { id = "1"; rpm = pos 0; success_limit = pos 2 }

abbrev tool_call : Context
tool_call = record { tool_name = some "web_search"; user = some caller }

abbrev fine : HandlerEnd
fine = returns (record { status = 200; marked = tool_outcome_success; reports_error = false })

a-is_valid : is_valid same_text "a" of_ann ≡ true
unfolding is_valid
a-is_valid = refl

ann-is_within : is_within (pos 2) (effective_calls 7 ann) ≡ true
unfolding is_within effective_calls
ann-is_within = refl

ann-lookup : lookup "1" small.users ≡ some ann
unfolding lookup
ann-lookup = refl

none-lookup : lookup "a" small.reservations ≡ none
unfolding lookup
none-lookup = refl

serve_tool_call-settles_example :
    (serve_tool_call same_text small tool_call "k" no_inspection "a" 7 fine).db
    ≡ settled_db small of_ann ann (succeeds fine)
serve_tool_call-settles_example =
    serve_tool_call-settles same_text small tool_call "k" no_inspection "a" 7 fine "web_search"
      caller ann refl (ne_of_beq "web_search" "" refl) refl ann-lookup ann-is_within a-is_valid
      none-lookup
