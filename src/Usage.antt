-- ===== src/Usage.antt =====
-- internal/usage: the outcome of a tool call, and what follows from it.
pub mod Outcome
pub mod Inspector
pub mod Routing
pub mod Middleware
