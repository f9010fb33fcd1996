-- ===== src/Auth.antt =====
-- internal/auth: the authentication of MCP requests.
pub mod ResolverCache
