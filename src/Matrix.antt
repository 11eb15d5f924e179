-- ===== src/Matrix.antt =====
-- bench/investigation/run_matrix.py: every engine over every workload, one run after another.
pub mod Server
pub mod Runs
pub mod Jobs
