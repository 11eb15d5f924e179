-- ===== src/Client/Trace.antt =====
-- bench/investigation/client.py: the trace of a run (`make_trace`). What the seeded generator draws,
-- `randrange(width)` and `int(objects * betavariate(...))` in a request, is a parameter.
pub mod Bounds
use cachelib_grpc_server.Common.{
  ℕ, zero, suc, ◌+◌, ◌-◌, ◌/◌, Bool, true, false, List, [], ◌∷◌, map, ltb, if◌then◌else◌,
}
use cachelib_grpc_server.Campaign.Spec.{range_from}

pub data Pattern : Type 0 where
  uniform skew hot_shift one_pass : Pattern

-- `max(1, objects // 10)`
abbrev pub width_of : ℕ → ℕ
width_of objects = if ltb 1 (objects / 10) then objects / 10 else 1

module _ (randrange : ℕ → ℕ → ℕ) (skewed : ℕ → ℕ → ℕ) where
  abbrev pub index_at : Pattern → ℕ → ℕ → ℕ → ℕ
  index_at one_pass objects requests i = objects + i
  index_at hot_shift objects requests i =
      (if ltb i (requests / 2) then 0 else objects - width_of objects)
      + randrange i (width_of objects)
  index_at skew objects requests i = skewed i objects
  index_at uniform objects requests i = randrange i objects

  unfoldable pub make_trace : Pattern → ℕ → ℕ → List ℕ
  make_trace pattern objects requests =
      map (index_at pattern objects requests) (range_from 0 requests)
