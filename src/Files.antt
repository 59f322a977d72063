-- ===== src/Files.antt =====
-- The line files of telemetry.go and response_actions.go, with the file system below them.
pub mod Disk
pub mod Rotating
