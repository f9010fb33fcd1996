-- ===== src/Http.antt =====
-- What a middleware sees of a request and what it answers. The context values are those that
-- internal/auth and internal/usage attach; a missing value is `none`.
use grok_search_mcp.Base.{ℕ, String, Option}
use grok_search_mcp.Base.Int.{ℤ}

-- `auth.AuthenticatedUser`: the fields that the middlewares read.
pub record AuthenticatedUser : Type 0 where
  pub id : String
  -- The effective limits of the user's tier. 0 means unlimited.
  pub rpm : ℤ
  pub success_limit : ℤ

-- `usage.ToolNameFromContext` and `auth.UserFromContext`
pub record Context : Type 0 where
  pub tool_name : Option String
  pub user : Option AuthenticatedUser

-- Pass the request to the next handler, or write an error with its `Retry-After` seconds.
pub data Verdict : Type 0 where
  forward : Verdict
  reject : (status : ℕ) → (message : String) → (retry_after : Option ℕ) → Verdict

abbrev pub bad_request : ℕ
bad_request = 400

abbrev pub forbidden : ℕ
forbidden = 403

abbrev pub too_many_requests : ℕ
too_many_requests = 429

abbrev pub internal_server_error : ℕ
internal_server_error = 500

abbrev pub service_unavailable : ℕ
service_unavailable = 503
