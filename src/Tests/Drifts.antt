-- ===== src/Tests/Drifts.antt =====
-- A measurement of three levels, and two documents with generated blocks.
use cachelib_grpc_server.Common.{
  ℕ, ◌+◌, String, ◌≡◌, refl, ◌↔◌, true, false, some, [], ◌∷◌, ok, Place, here, there,
}
use cachelib_grpc_server.Reports.Floats.{round}
use cachelib_grpc_server.Rendered.Levels.Agreement
use cachelib_grpc_server.Rendered.Rounding.{round_half_up}
use cachelib_grpc_server.Rendered.Environment.{measured_version, render_environment}
use cachelib_grpc_server.Rendered.Levels.{
  Level, Sweep, ReadmeLine, figures_of, sweep_rows, sweep_lines, render_sweep, readme_lines,
  render_readme_sweep,
}
use cachelib_grpc_server.Rendered.Operations.{Operation, op_lines, render_ops, render_get_vs_ping}
use cachelib_grpc_server.Rendered.Marked.{begin, end, other, substitute, has_block, apply_blocks}
use cachelib_grpc_server.Rendered.Main.{Measurement, Block, Files, blocks, update, main}
use cachelib_grpc_server.Rendered.Main.Check
use cachelib_grpc_server.Rendered.Main.Check.{AllCurrent}

-- 5738.5 is rounded to 5739, 5738.49 to 5738, and 0.5 has two places where they are asked for.
halves :
    (round_half_up 57385 1 0 ≡ 5739)
    × (round_half_up 573849 2 0 ≡ 5738)
    × (round_half_up 5 1 2 ≡ 50)
unfolding round_half_up
halves = (refl, refl, refl)

abbrev level : ℕ → Level
level rps = record {
  rps_runs = rps ∷ (rps + 3) ∷ [];
  rps_median = rps + 1;
  p50_median_ms = 4;
  p99_median_ms = 9;
  p999_median_ms = 12;
}

abbrev measured : Sweep
measured = (100, level 900) ∷ (1, level 70) ∷ (50, level 600) ∷ []

tables : Unit {0}
unfolding render_sweep sweep_lines sweep_rows round_half_up render_readme_sweep readme_lines
tables = tt

abbrev knee : ReadmeLine
knee = record { level = 100; figures = figures_of 1 (level 900); bold = true }

knee-Place : Place knee (render_readme_sweep 1 measured)
unfolding render_readme_sweep readme_lines sweep_rows
knee-Place = there here

abbrev operation : ℕ → Operation
operation rps = record { rps = rps; p50 = 1; p99 = 2; p999 = 3; count = 10; successes = 9 }

abbrev measurement : Measurement
measurement = record {
  environment = record {
    host = "laptop";
    runtime = "docker";
    vm_resources = "8 CPUs";
    image = "cache:1.6.0";
    image_digest = "sha256:0123456789abcdef";
    server_cpus = "0-3";
    load_generator = "ghz v0.120.0";
    client_cpus = "4-7";
    cache = "64 MiB";
    workset = "1000 keys";
    requests_per_measurement = 20000;
  };
  operation_mix =
      ("get", operation 90)
      ∷ ("set", operation 80)
      ∷ ("incr", operation 70)
      ∷ ("ping", operation 100)
      ∷ [];
  get_concurrency_sweep = measured;
}

abbrev text_of : Block → String
text_of b = "new"

abbrev documents : Files
documents =
    (
      "BENCHMARKS.md",
      other "intro"
          ∷ begin "sweep" true
          ∷ other "old"
          ∷ begin "sweep" false
          ∷ end "sweep"
          ∷ end "sweep"
          ∷ [],
    )
    ∷ ("README.md", begin "get-vs-ping" false ∷ end "get-vs-ping" ∷ begin "operations" true ∷ [])
    ∷ []

program : Unit {0}
unfolding main update blocks render_environment measured_version render_ops op_lines
    render_get_vs_ping round apply_blocks substitute has_block tables
program = tt

finished : (main text_of 1 false (some "1.8.0") (some measurement) documents).0 ≡ ok 0
unfolding program
finished = refl

main-passes_example :
    (◌≡◌ {A = ℕ} 0 0)
    × (main text_of 1 true
          (some "1.8.0")
          (some measurement)
          (main text_of 1 false (some "1.8.0") (some measurement) documents).1
        ≡ (ok 0, (main text_of 1 false (some "1.8.0") (some measurement) documents).1))
main-passes_example = Check.main-passes text_of 1 (some "1.8.0") measurement documents finished

check_exact_example :
    ((main text_of 1 true (some "1.8.0") (some measurement) documents).1 ≡ documents)
    × (((main text_of 1 true (some "1.8.0") (some measurement) documents).0 ≡ ok 0)
        ↔ AllCurrent text_of 1
            (some "1.8.0")
            measurement
            documents
            (blocks 1 (some "1.8.0") measurement))
check_exact_example = Check.check_exact text_of 1 (some "1.8.0") measurement documents
