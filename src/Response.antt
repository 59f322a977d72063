-- ===== src/Response.antt =====
-- response.go and response_actions.go: which alerts the responders see, and what they do.
pub mod Policy
pub mod Router
pub mod Killer
