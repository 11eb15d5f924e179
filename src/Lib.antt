-- ===== src/Lib.antt =====
-- The benchmark programs of the repository (bench/): campaigns of measurements of cache servers,
-- whose evidence backs the published numbers.
--
-- A campaign is a list of groups; a group names workloads, engines and a number of repetitions, and
-- so the runs that are expected of it. The driver (bench/strong/release_campaign.py) measures one
-- group after another: it builds a command for the harness, starts it, starts the summarizer,
-- validates what the runs left in their directories, and saves its state to campaign.json before
-- and after, so that an interrupted campaign is seen. The harness (bench/strong/run_strong.py)
-- checks its options, shuffles the order of the engines, and for each run starts a server and a
-- client in Docker, waits for both, writes the result, and in the end asks for the logs and removes the
-- containers. The HTTP groups measure a service (bench/strong/http_service.py) that runs twice: as the
-- origin of media objects, and as an adapter that keeps them in the cache server.
--
-- The files and what they model:
-- - Common: tests, lists, association lists (dictionaries in the order of insertion), and `Result`
--   for a value or an exception.
-- - Campaign/Spec: `group`, `expected_runs`, `plan` of bench/strong/release_campaign.py.
--   Campaign/Release and Campaign/Landscape: the groups (GROUPS) of that file and of
--   bench/strong/landscape_campaign.py. Campaign/Runs: the sizes.
-- - Campaign/Evidence and Campaign/Validate: the files of a run and `validate_group`. The three lists
--   that it appends to are the fields of `Findings`; a message is a constructor of `Issue`.
-- - Campaign/Command: `group_command`. A word of a command line is kept by how it is made.
-- - Campaign/Driver: `run`. What it writes to campaign.json is the state `Campaign`; a session lists
--   the groups that it measured and what it saved.
-- - Harness/Cases, Harness/Engines, Harness/Setup: CASES, IMAGES, PORTS, `server_arguments`,
--   `setup`, `record_flash_usage` of bench/strong/run_strong.py.
-- - Harness/Actions and Harness/RunOnce: `run_once`, in a monad of a directory that is written and
--   of exceptions; what was written before an exception stays. A container counts as removed where
--   `docker rm` ended with exit status 0. Harness/Actions/Ends: chains that end with a value.
-- - Harness/Schedule: the checks and the order of `main`, and the runs that `run_once` skips.
-- - Http/Bodies, Http/Paths, Http/Service: `payload`, the paths and `do_GET` with `fetch_origin` of
--   bench/strong/http_service.py, as the origin and as the adapter, over any cache service; a
--   connection is named by the order in which connections are opened.
-- - Http/Harness: `run_one` and the order of `main` of bench/strong/run_http.py, in the same monad.
-- - Reports/Latency and Reports/Sweep: the percentiles of bench/report.py, with the numbers of
--   Reports/Floats, and `sweep`, `operation_mix` and `main` of bench/summarize.py, which summarize raw
--   runs of a load generator.
-- - Client: bench/investigation/client.py, which runs a trace of keys over one cache. Client/Trace:
--   `make_trace`. Client/Calls: a call and the counts. Client/Run: `run`, as with one worker.
--   Client/Verify: `verify`, with the answers that it asks for in Client/Verify/Seen. Client/Batch:
--   `batch`.
-- - Matrix/Server, Matrix/Runs, Matrix/Jobs: `setup`, `run_case` and the loop of `main` of
--   bench/investigation/run_matrix.py, the earlier harness, over the same engines.
-- - Investigation/HttpPaths and Investigation/Limits: `main` of bench/investigation/run_http.py and
--   run_limits.py. Investigation/Selection: `row` and the selection of bench/investigation/summarize.py.
-- - Summaries: bench/strong/summarize.py. Summaries/Counters: `cgroup`, `counter_delta`,
--   `io_counters`. Summaries/KvRow, Summaries/HttpRow: the row of a run. Summaries/Runs: the rows, the
--   failures and the groups of `main`.
-- - Published: the documents of the two campaigns. Published/Rows, Published/Cells: the numbers of a
--   table. Published/Blocks: `replace_readme_headlines`. Published/Headlines: `readme_headlines`.
--   Published/Render: `render` and `main` of bench/strong/render_release_report.py.
--   Published/Ranking: `ranking`, `place` and `comparison_sentence` of
--   bench/strong/render_landscape_report.py; Published/Landscape: its labels, `readme_headlines` and
--   `render`. Published/Tables: the tables of bench/strong/render_report_tables.py.
-- - Rendered: bench/render.py, the tables of the first benchmark. Rendered/Rounding: `_round`.
--   Rendered/Environment, Rendered/Levels, Rendered/Operations: the tables. Rendered/Marked:
--   `apply_blocks`. Rendered/Main: `blocks` and `main`.
-- - Smoke: `main` of bench/strong/flash_smoke.py, over a service with a state.
-- - Tests: concrete groups, runs and campaigns.
--
-- Bounds: a server and an HTTP target are looked at 60 times at most (40 and 30 times in
-- bench/investigation), as in the loops of the source; the fuel is that number, and running out is
-- the source's own error. The wait for a client is bounded by a clock in the source and by the list of
-- looks here, and the waits of the file-tier test by a number of looks. All other loops run over a
-- list or a range.
--
-- Parameters: what Docker, git, the file system and the clock answer are fields of the records named
-- `World`; the cache behind the adapter and behind the trace runner, the service that the file-tier
-- test calls, the equality of two recorded definitions, the order by which rows are sorted, and the
-- random generator's shuffles and draws are arguments. Numbers of a result are decimals, where Python
-- reads floats; the factor .99 is exact here, and the share of a percentile is computed in double
-- precision (Reports/Floats). A result has numbers where
-- the programs write numbers: a file with other types is outside the model.
--
-- Not modelled: printing, time stamps, host facts and the hashing of evidence files; the text of the
-- documents that does not depend on the evidence; medians of summary.json, the bootstrap and the
-- charts; limits, quantiles and statistics of the client; the reading of the counters in
-- bench/investigation/summarize.py, and the HTTP client and the HTTP summary beside it; the C++ server
-- and its clients.
pub mod Common
pub mod Campaign
pub mod Harness
pub mod Http
pub mod Reports
pub mod Client
pub mod Matrix
pub mod Summaries
pub mod Published
pub mod Rendered
pub mod Investigation
pub mod Smoke
mod Tests
