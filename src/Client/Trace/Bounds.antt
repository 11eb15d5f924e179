-- ===== src/Client/Trace/Bounds.antt =====
-- Which objects a trace asks for.
use cachelib_grpc_server.Common.{ℕ, ◌≤◌, ◌<◌, List, [], ◌∷◌, map, arith, Place, here, there}
use cachelib_grpc_server.Campaign.Spec.{range_from}
use cachelib_grpc_server.Client.Trace.{
  Pattern, uniform, skew, hot_shift, one_pass, width_of, index_at, make_trace,
}

-- The objects that a pattern may ask for: those of the set, or for a single pass only new ones.
abbrev pub InRange : Pattern → ℕ → ℕ → Type 0
InRange one_pass objects i = objects ≤ i
InRange hot_shift objects i = i < objects
InRange skew objects i = i ≤ objects
InRange uniform objects i = i < objects

module _ (randrange : ℕ → ℕ → ℕ) (skewed : ℕ → ℕ → ℕ)
    (drawn : (i width : ℕ) → 1 ≤ width → randrange i width < width)
    (drawn_skewed : (i objects : ℕ) → skewed i objects ≤ objects) where
  index_at-InRange :
      (pattern : Pattern) (objects requests i : ℕ)
      → 1 ≤ objects
      → InRange pattern objects (index_at randrange skewed pattern objects requests i)
  index_at-InRange one_pass objects requests i h = omega arith
  index_at-InRange hot_shift objects requests i h =
      let d = drawn i (width_of objects) (ground arith) in ground arith
  index_at-InRange skew objects requests i h = drawn_skewed i objects
  index_at-InRange uniform objects requests i h = drawn i objects h

  trace-InRange :
      (pattern : Pattern) (objects requests : ℕ) (is : List ℕ) {k : ℕ}
      → 1 ≤ objects
      → Place k (map (index_at randrange skewed pattern objects requests) is)
      → InRange pattern objects k
  trace-InRange pattern objects requests [] h m = elim m [ ]
  trace-InRange pattern objects requests (i ∷ is) h here =
      index_at-InRange pattern objects requests i h
  trace-InRange pattern objects requests (i ∷ is) h (there m) =
      trace-InRange pattern objects requests is h m

-- As long as `randrange` draws below its bound, and the skewed draw is at most the number of objects:
-- over one object or more, a trace asks only for objects of the set, or for the object after the last
-- where the draw is skewed; a single pass asks only for objects outside it.
pub make_trace-InRange :
    (randrange skewed : ℕ → ℕ → ℕ)
    → ((i width : ℕ) → 1 ≤ width → randrange i width < width)
    → ((i objects : ℕ) → skewed i objects ≤ objects)
    → (pattern : Pattern) (objects requests : ℕ) {k : ℕ} → 1 ≤ objects
    → Place k (make_trace randrange skewed pattern objects requests)
    → InRange pattern objects k
unfolding make_trace
make_trace-InRange randrange skewed drawn drawn_skewed pattern objects requests h m =
    trace-InRange randrange skewed drawn drawn_skewed pattern objects requests
      (range_from 0 requests) h m
