-- ===== src/Harness.antt =====
-- bench/strong/run_strong.py: the harness that measures one engine on one workload.
pub mod Cases
pub mod Engines
pub mod Actions
pub mod Setup
pub mod RunOnce
pub mod Schedule
