-- ===== src/Rendered.antt =====
-- bench/render.py: the tables of BENCHMARKS.md and README.md, made of a committed measurement.
pub mod Rounding
pub mod Environment
pub mod Levels
pub mod Operations
pub mod Marked
pub mod Main
