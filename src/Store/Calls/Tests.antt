-- ===== src/Store/Calls/Tests.antt =====
-- The administration of users on concrete inputs.
use grok_search_mcp.Base.{◌≡◌, refl, String, Bool, true, none, some, List, [], ◌∷◌, arith}
use grok_search_mcp.Base.Int.{pos}
use grok_search_mcp.Base.Keys.{◌==◌, string_key}
use grok_search_mcp.Base.Assoc.{lookup, insert}
use grok_search_mcp.Base.Count.{count_by}
use grok_search_mcp.Store.{role_admin, User, Database, last_admin}
use grok_search_mcp.Store.Users.{
  UserUpdates, count_enabled_admins, update_user, update_in, collect_changes, parse_role, same_role,
  same_flag, change_enabled, change_role, change_tier, change_password, revoke_tokens, bump_version,
  store_change,
}
use grok_search_mcp.Store.Users.Admins.{HasAdmin}
use grok_search_mcp.Store.Calls.{
  StoreCall, creates, updates, deletes, reserves, failure, store_call, run_calls,
  run_calls-HasAdmin,
}
use grok_search_mcp.Store.Calls.Atomicity.{store_call-error}

abbrev same_text : String → String
same_text s = s

abbrev equal_names : String → String → Bool
equal_names a b = a == b

abbrev root : User
root = record {
  username = "root";
  password_hash = "x";
  role = role_admin;
  enabled = true;
  tier_id = "t";
  success_calls = 0;
  success_period = 7;
  token_version = 0;
  created_at = 1;
  updated_at = 1;
}

abbrev small : Database
small = record {
  users = ("1", root) ∷ [];
  tiers = ("t", true) ∷ [];
  apikeys = ("k", "1") ∷ [];
  usage_log = (1, "k") ∷ [];
  reservations = [];
}

small-HasAdmin : HasAdmin small
unfolding lookup count_enabled_admins count_by same_role
small-HasAdmin = record { unique = (refl, tt); some_admin = omega arith }

-- The only administrator loses the role.
abbrev demotion : UserUpdates
demotion = record {
  enabled = none;
  role = some "user";
  tier_id = none;
  revoke_tokens = none;
  password_hash = none;
}

abbrev session : List StoreCall
session =
    updates "1" demotion 7 2
    ∷ creates "2" "ann" "y" "admin" 7 3
    ∷ reserves "r" "2" (pos 5) 7
    ∷ deletes "1"
    ∷ deletes "2"
    ∷ []

run_calls-HasAdmin_example : HasAdmin (run_calls same_text equal_names small session)
run_calls-HasAdmin_example = run_calls-HasAdmin same_text equal_names small session small-HasAdmin

demotion_refused :
    (store_call same_text equal_names small (updates "1" demotion 7 2)).0 ≡ some last_admin
unfolding store_call failure update_user update_in collect_changes parse_role same_role same_flag
    change_enabled change_role change_tier change_password revoke_tokens bump_version store_change
    lookup insert count_enabled_admins count_by
demotion_refused = refl

store_call-error_example :
    (store_call same_text equal_names small (updates "1" demotion 7 2)).1 ≡ small
store_call-error_example =
    store_call-error same_text equal_names small (updates "1" demotion 7 2) last_admin
      demotion_refused
