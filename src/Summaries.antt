-- ===== src/Summaries.antt =====
-- bench/strong/summarize.py: the rows of the runs of a group, and their summary.
pub mod Integers
pub mod Counters
pub mod Values
pub mod KvRow
pub mod HttpRow
pub mod Runs
