-- ===== src/Tests/Traces.antt =====
-- Traces and their runs over a cache that keeps a list of the indices it holds.
use cachelib_grpc_server.Common.{
  ◌++◌, Option, Bool, is_some, ℕ, ◌+◌, ◌≤◌, ◌≡◌, true, none, some, List, [], ◌∷◌, arith, refl, ok,
  false, any_b, eqb, concat_map, length, All, ◌<◌, ◌*◌, if◌then◌else◌,
}
use cachelib_grpc_server.Campaign.Evidence.{Probe}
use cachelib_grpc_server.Client.Batch
use cachelib_grpc_server.Client.Batch.{pipeline}
use cachelib_grpc_server.Client.Batch.Groups
use cachelib_grpc_server.Client.Calls.{Backend, mixed, measured, counts}
use cachelib_grpc_server.Client.Calls.Accounting
use cachelib_grpc_server.Client.Run.{Args, Report, run}
use cachelib_grpc_server.Client.Run.Hits
use cachelib_grpc_server.Client.Trace.{uniform}
use cachelib_grpc_server.Campaign.Validate.{probe_passed}
use cachelib_grpc_server.Client.Verify.{
  Cache, Value, binary, two, other, batch_a, batch_b, await_expiry, basics, batches, ask, verify,
}
use cachelib_grpc_server.Client.Verify.Probes
use cachelib_grpc_server.Client.Verify.Seen.{Sees, basics_seen, batches_seen}

abbrev held : Backend (List ℕ)
held = record {
  get = λ k (c : List ℕ). (if any_b (λ j. eqb j k) c then some true else none, c);
  set = λ k (c : List ℕ). (true, k ∷ c);
}

counts_add_example :
    let k = counts (measured held mixed 0 (1 ∷ 2 ∷ 1 ∷ []) []) in
    (k.measured_operations ≡ 3)
    × (k.read_operations + k.write_operations ≡ k.measured_operations)
    × (k.object_hits + k.origin_requests ≤ k.read_operations)
    × (k.read_operations ≤ k.object_hits + k.origin_requests + k.errors)
counts_add_example = Accounting.counts_add held mixed (1 ∷ 2 ∷ 1 ∷ []) []

abbrev Holds : ℕ → List ℕ → Type 0
Holds i c = any_b (λ j. eqb j i) c ≡ true

held-Keeps : Hits.Keeps held Holds
held-Keeps = record {
  sets = λ i c. refl;
  held = λ i c. ground arith;
  gets = λ i c h. rw h refl;
  kept_set = λ i j c h. ground arith;
  kept_get = λ i j c h. h;
}

abbrev args : Args
args = record {
  mode = mixed;
  pattern_name = uniform;
  objects = 4;
  requests = 25;
  warmup = 5;
  preload = false;
}

run_hits_example :
    (r : Report) × (run held (λ i width. 0) (λ i objects. 0) args [] ≡ ok r)
    × (r.preloaded_objects ≡ 4)
    × (r.counts.errors ≡ 0)
    × (r.counts.origin_requests ≡ 0)
    × (r.counts.object_hits + r.counts.write_operations ≡ r.counts.measured_operations)
run_hits_example =
    Hits.run_hits held Holds held-Keeps (λ i width. 0) (λ i objects. 0) (λ i width h. h)
      (λ i objects. omega arith) args [] refl refl (omega arith)

batch-IsCut_example :
    (cut : List (List ℕ)) × (r : Batch.Report) × (Batch.groups 2 (5 ∷ 7 ∷ 9 ∷ []) ≡ ok cut)
    × (Batch.batch pipeline 2
          (λ keys. record { sequence = 0 ∷ []; values = true ∷ [] })
          (5 ∷ 7 ∷ 9 ∷ [])
        ≡ ok r)
    × (concat_map (λ keys. keys) cut ≡ 5 ∷ 7 ∷ 9 ∷ [])
    × All (Groups.HasSize 2) cut
    × (r.operations ≡ 3)
    × (r.batches ≡ length cut)
    × (3 ≤ r.batches * 2)
    × (r.batches * 2 < 3 + 2)
batch-IsCut_example =
    Groups.batch-IsCut pipeline 1 (λ keys. record { sequence = 0 ∷ []; values = true ∷ [] })
      (5 ∷ 7 ∷ 9 ∷ [])

-- A cache of one value that expires with the first pause.
abbrev one_value : Cache (Option Value × Bool)
one_value = record {
  get = λ k (c : Option Value × Bool). (c.0, c);
  set = λ k v ttl (c : Option Value × Bool). (true, (some v, eqb ttl 1));
  delete = λ k (c : Option Value × Bool). (is_some c.0, (none, false));
  pause = λ (c : Option Value × Bool). if c.1 then (none, false) else c;
  multi_set = λ items (c : Option Value × Bool). ((2, 0), c);
  multi_get = λ keys (c : Option Value × Bool). ((batch_a, binary) ∷ (batch_b, two) ∷ [], c);
  pipeline = λ (c : Option Value × Bool). (
    record { sequence_id = 41; set_success = true; get_value = other; delete_success = false }
        ∷ record {
          sequence_id = 42;
          set_success = false;
          get_value = binary;
          delete_success = false;
        }
        ∷ record { sequence_id = 43; set_success = false; get_value = other; delete_success = true }
        ∷ [],
    c,
  );
}

abbrev reported : Probe
reported = record { basic = some "passed"; batch_pipeline = some "passed" }

verified : verify one_value "grpc" 40 (none, false) ≡ (ok reported, (none, false))
unfolding verify basics batches await_expiry ask
verified = refl

verify-Sees_example :
    Sees one_value (none, false) (basics_seen ++ batches_seen true) (none, false)
    × (probe_passed "grpc_nvm" reported ≡ true)
verify-Sees_example = Probes.verify-Sees one_value "grpc_nvm" "grpc" 40 (none, false) refl verified
