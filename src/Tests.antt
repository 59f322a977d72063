-- ===== src/Tests.antt =====
-- Runs of the definitions, and the theorems at inputs that meet their hypotheses.
mod Samples
mod Detection
mod Response
mod Dashboard
mod Gauges
mod Ioc
mod Rules
mod Settings
mod Page
mod Overlap
mod Auth
mod Capturer
mod Agent
mod Files
mod Persist
mod History
