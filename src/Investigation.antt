-- ===== src/Investigation.antt =====
-- bench/investigation: the programs of the first comparison over HTTP (run_http.py), and of the probes
-- with large values (run_limits.py), and the summary of the runs (summarize.py).
pub mod HttpPaths
pub mod Limits
pub mod Selection
