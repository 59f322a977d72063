-- ===== src/Dashboard.antt =====
-- dashboard/dashboard.go: custom metrics, editable rules, the overlap of alerts, and access.
pub mod Metric
pub mod Rules
pub mod Overlap
pub mod History
pub mod Auth
pub mod Cookie
pub mod Settings
pub mod Summary
pub mod Item
pub mod Graphs
