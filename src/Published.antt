-- ===== src/Published.antt =====
-- bench/strong/render_release_report.py, render_landscape_report.py and render_report_tables.py: the
-- documents that are generated from the evidence.
pub mod Blocks
pub mod Rows
pub mod Ranking
pub mod Tables
pub mod Headlines
pub mod Cells
pub mod Render
pub mod Landscape
