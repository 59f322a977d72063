-- ===== src/Detection.antt =====
-- detection.go, detection_rules.go and ioc.go: from a capture to alerts.
pub mod Types
pub mod Dedup
pub mod RateLimit
pub mod Enrich
pub mod Detector
pub mod Responders
pub mod Ioc
pub mod Rules
