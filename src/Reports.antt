-- ===== src/Reports.antt =====
-- bench/report.py and bench/summarize.py: the summary of raw measurements.
pub mod Floats
pub mod Latency
pub mod Sweep
