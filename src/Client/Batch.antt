-- ===== src/Client/Batch.antt =====
-- bench/investigation/client.py: `batch`, which reads a trace in groups of objects by one call. What a
-- call answers is a parameter, with whether each value is the expected one.
pub mod Groups
use cachelib_grpc_server.Common.{
  ℕ, zero, suc, ◌+◌, ◌-◌, String, ◌==◌, Bool, true, false, not, ◌&&◌, ◌||◌, Option, none, some,
  List, [], ◌∷◌, ◌++◌, length, all_b, any_b, eqb, is_empty, concat_map, if◌then◌else◌, Result, ok,
  err, ◌>>=◌,
}
use cachelib_grpc_server.Client.Run.{take, drop}

-- `[trace[i:i+size] for i in range(0, len(trace), size)]`, with fuel for the groups
abbrev pub groups_of : ℕ → ℕ → List ℕ → List (List ℕ)
groups_of size zero trace = []
groups_of size (suc fuel) [] = []
groups_of size (suc fuel) (i ∷ is) = take size (i ∷ is) ∷ groups_of size fuel (drop size (i ∷ is))

-- The length of the trace is enough fuel; `range` refuses a step of zero.
unfoldable pub groups : ℕ → List ℕ → Result String (List (List ℕ))
groups zero trace = err "range() arg 3 must not be zero"
groups (suc n) trace = ok (groups_of (suc n) (length trace) trace)

-- What a call answers: the sequence numbers of a pipeline, and for every value whether it is found
-- and is the expected one.
pub record Reply : Type 0 where
  pub sequence : List ℕ
  pub values : List Bool

pub data Call : Type 0 where
  multiget pipeline other : Call

abbrev same_numbers : List ℕ → List ℕ → Bool
same_numbers [] [] = true
same_numbers [] (n ∷ ns) = false
same_numbers (m ∷ ms) [] = false
same_numbers (m ∷ ms) (n ∷ ns) = eqb m n && same_numbers ms ns

abbrev numbers_from : ℕ → List ℕ → List ℕ
numbers_from j [] = []
numbers_from j (i ∷ is) = j ∷ numbers_from (j + 1) is

-- `[r.sequence_id for r in rs] != list(range(len(keys)))`
abbrev sequence_errors : Call → List ℕ → Reply → List String
sequence_errors pipeline keys a =
    if same_numbers a.sequence (numbers_from 0 keys) then [] else "sequence mismatch" ∷ []
sequence_errors multiget keys a = []
sequence_errors other keys a = []

abbrev value_errors : List ℕ → Reply → List String
value_errors keys a =
    if not (eqb (length a.values) (length keys)) || any_b not a.values
    then "missing or corrupt value" ∷ []
    else []

abbrev pub group_errors : Call → List ℕ → Reply → List String
group_errors kind keys a = sequence_errors kind keys a ++ value_errors keys a

pub record Report : Type 0 where
  pub operations : ℕ
  pub batches : ℕ
  pub errors : ℕ
  -- the objects that the rate counts
  pub successful : ℕ

unfoldable pub batch : Call → ℕ → (List ℕ → Reply) → List ℕ → Result String Report
batch kind size ask trace = do
  calls ← groups size trace
  let errors = concat_map (λ keys. group_errors kind keys (ask keys)) calls in
      ok (record {
        operations = length trace;
        batches = length calls;
        errors = length errors;
        successful = if is_empty errors then length trace else 0;
      })
