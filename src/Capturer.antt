-- ===== src/Capturer.antt =====
-- The package capturer: what a capturer reports.
pub mod Info
pub mod Conn
pub mod Since
pub mod Rates
pub mod Net
pub mod Disk
pub mod Mem
pub mod Cpu
pub mod Process
pub mod Files
pub mod Persist
pub mod Config
