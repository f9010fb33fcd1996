-- ===== src/RateLimit.antt =====
-- internal/ratelimit: the bounded admission control in front of the MCP endpoint.
pub mod Bucket
pub mod User
pub mod Ip
pub mod ClientIp
pub mod Search
