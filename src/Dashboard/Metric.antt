-- ===== src/Dashboard/Metric.antt =====
-- Custom metrics of dashboard/dashboard.go: expressions, their text, and their values over a capture.
pub mod Order
pub mod Expr
pub mod Lexer
pub mod Parser
pub mod Printer
pub mod Eval
pub mod Saved
pub mod Defaults
