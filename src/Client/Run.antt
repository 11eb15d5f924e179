-- ===== src/Client/Run.antt =====
-- bench/investigation/client.py: `run`, from the preloading to the counts. The measured operations
-- come one after another, as with one worker.
pub mod Hits
use cachelib_grpc_server.Common.{
  ℕ, zero, suc, ◌+◌, min, Bool, true, false, ◌||◌, String, List, [], ◌∷◌, length, Result, ok, err,
  ◌>>=◌, if◌then◌else◌,
}
use cachelib_grpc_server.Client.Trace.{Pattern, make_trace}
use cachelib_grpc_server.Client.Calls.{
  Mode, hit, origin, mixed, bypass, Backend, call, measured, Counts, counts,
}

pub record Args : Type 0 where
  pub mode : Mode
  pub pattern_name : Pattern
  pub objects : ℕ
  pub requests : ℕ
  pub warmup : ℕ
  pub preload : Bool

-- `args.mode in ("hit", "mixed")`
abbrev pub reads_all : Mode → Bool
reads_all hit = true
reads_all mixed = true
reads_all origin = false
reads_all bypass = false

-- `trace[:n]` and `trace[n:]`
abbrev pub take : ℕ → List ℕ → List ℕ
take zero ns = []
take (suc k) [] = []
take (suc k) (n ∷ ns) = n ∷ take k ns

abbrev pub drop : ℕ → List ℕ → List ℕ
drop zero ns = ns
drop (suc k) [] = []
drop (suc k) (n ∷ ns) = drop k ns

-- The part of the trace that is measured: behind the warmup where an origin is filled from, else all.
abbrev pub measured_part : Mode → ℕ → List ℕ → List ℕ
measured_part origin n trace = drop n trace
measured_part hit n trace = trace
measured_part mixed n trace = trace
measured_part bypass n trace = trace

module _ {C : Type 0} (b : Backend C) where
  abbrev pub stored : Bool × C → Result String C
  stored (true, c) = ok c
  stored (false, c) = err "preload failed"

  -- `for i in range(args.objects)`, from `i` on with `n` left
  unfoldable pub preload_from : ℕ → ℕ → C → Result String C
  preload_from i zero c = ok c
  preload_from i (suc n) c = do next ← stored (b.set i c); preload_from (i + 1) n next

  -- `for index in warm: call(index)`
  unfoldable pub warm_up : Mode → List ℕ → C → C
  warm_up mode [] c = c
  warm_up mode (index ∷ indices) c =
      let (r, c') = call b mode index false c in warm_up mode indices c'

pub record Report : Type 0 where
  pub preloaded_objects : ℕ
  pub warmup_operations : ℕ
  pub counts : Counts

module _ {C : Type 0} (b : Backend C) (randrange skewed : ℕ → ℕ → ℕ) where
  abbrev is_preloaded : Args → Bool
  is_preloaded a = reads_all a.mode || a.preload

  abbrev preloaded : Args → C → Result String C
  preloaded a c = if is_preloaded a then preload_from b 0 a.objects c else ok c

  unfoldable pub run : Args → C → Result String Report
  run a c = do
    filled ← preloaded a c
    let trace = make_trace randrange skewed a.pattern_name a.objects a.requests in
        let warm = take (min a.warmup (length trace)) trace in
        let records =
          measured b a.mode 0 (measured_part a.mode (min a.warmup (length trace)) trace)
            (warm_up b a.mode warm filled) in
        ok (record {
          preloaded_objects = if is_preloaded a then a.objects else 0;
          warmup_operations = length warm;
          counts = counts records;
        })
