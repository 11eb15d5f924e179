-- ===== src/Client/Run/Hits.antt =====
-- What a run reports over a cache that keeps what it stores.
use native.Mathlib.Decide.{dec_le}
use cachelib_grpc_server.Common.{
  ℕ, zero, suc, ◌+◌, ◌≤◌, ◌<◌, min, ◌≡◌, refl, sym, subst, Bool, true, false, Option, none, some,
  List, [], ◌∷◌, length, ok, All, Place, here, there, arith,
}
use cachelib_grpc_server.Client.Trace.{Pattern, uniform, skew, hot_shift, one_pass, make_trace}
use cachelib_grpc_server.Client.Trace.Bounds.{InRange, make_trace-InRange}
use cachelib_grpc_server.Client.Calls.{
  Mode, hit, origin, mixed, bypass, Backend, Record, record_of, written, found, read_or_write, call,
  is_write_at, measured, one_if, one_if_some, count, counts,
}
use cachelib_grpc_server.Client.Run.{
  Args, reads_all, take, measured_part, preload_from, warm_up, Report, run, stored,
}

-- A cache of which it is known what it holds: a store succeeds, and what is held is found with its
-- bytes and stays.
pub record Keeps {C : Type 0} (b : Backend C) (Holds : ℕ → C → Type 0) : Type 0 where
  pub sets : (i : ℕ) (c : C) → (b.set i c).0 ≡ true
  pub held : (i : ℕ) (c : C) → Holds i (b.set i c).1
  pub gets : (i : ℕ) (c : C) → Holds i c → (b.get i c).0 ≡ some true
  pub kept_set : (i j : ℕ) (c : C) → Holds j c → Holds j (b.set i c).1
  pub kept_get : (i j : ℕ) (c : C) → Holds j c → Holds j (b.get i c).1

-- The record of a call that read or wrote what it should.
abbrev IsGood : Record → Type 0
IsGood r = (one_if_some r.error ≡ 0) × (one_if r.is_hit + one_if r.is_write ≡ 1) × (r.origins ≡ 0)

module _ {C : Type 0} (b : Backend C) (Holds : ℕ → C → Type 0) (keeps : Keeps b Holds) where
  abbrev HoldsBelow : ℕ → C → Type 0
  HoldsBelow n c = (j : ℕ) → j < n → Holds j c

  written-true : (p : Bool × C) → p.0 ≡ true → written b p ≡ (record_of false 0 none true, p.1)
  written-true (true, c) e = refl
  written-true (false, c) e = cc

  found-true :
      (mode : Mode) (i : ℕ) (p : Option Bool × C)
      → p.0 ≡ some true
      → found b mode i p ≡ (record_of true 0 none false, p.1)
  found-true mode i (some true, c) e = refl
  found-true mode i (some false, c) e = cc
  found-true mode i (none, c) e = cc

  call-reads :
      (mode : Mode) (i : ℕ) (write : Bool) (c : C)
      → reads_all mode ≡ true
      → call b mode i write c ≡ read_or_write b mode i write c
  unfolding call
  call-reads hit i write c h = refl
  call-reads mixed i write c h = refl
  call-reads origin i write c h = cc
  call-reads bypass i write c h = cc

  abbrev Goes : ℕ → Record × C → Type 0
  Goes n p = IsGood p.0 × HoldsBelow n p.1

  Goes-read_or_write :
      (n : ℕ) (mode : Mode) (i : ℕ) (write : Bool) (c : C)
      → i < n
      → HoldsBelow n c
      → Goes n (read_or_write b mode i write c)
  Goes-read_or_write n mode i true c l h =
      subst (Goes n) (sym (written-true (b.set i c) (keeps.sets i c)))
        ((refl, refl, refl), λ j k. keeps.kept_set i j c (h j k))
  Goes-read_or_write n mode i false c l h =
      subst (Goes n) (sym (found-true mode i (b.get i c) (keeps.gets i c (h i l))))
        ((refl, refl, refl), λ j k. keeps.kept_get i j c (h j k))

  Goes-call :
      (n : ℕ) (mode : Mode) (i : ℕ) (write : Bool) (c : C)
      → reads_all mode ≡ true
      → i < n
      → HoldsBelow n c
      → Goes n (call b mode i write c)
  Goes-call n mode i write c r l h =
      subst (Goes n) (sym (call-reads mode i write c r)) (Goes-read_or_write n mode i write c l h)

  warm_up-HoldsBelow :
      (n : ℕ) (mode : Mode) (is : List ℕ) (c : C)
      → reads_all mode ≡ true
      → All (λ i. i < n) is
      → HoldsBelow n c
      → HoldsBelow n (warm_up b mode is c)
  unfolding warm_up
  warm_up-HoldsBelow n mode [] c r a h = h
  warm_up-HoldsBelow n mode (i ∷ is) c r a h =
      warm_up-HoldsBelow n mode is _ r a.1 (Goes-call n mode i false c r a.0 h).1

  counts-measured :
      (n : ℕ) (mode : Mode) (k : ℕ) (is : List ℕ) (c : C)
      → reads_all mode ≡ true
      → All (λ i. i < n) is
      → HoldsBelow n c
      → let rs = measured b mode k is c in
        (count (λ (r : Record). one_if_some r.error) rs ≡ 0)
        × (count (λ (r : Record). one_if r.is_hit) rs + count (λ (r : Record). one_if r.is_write) rs
            ≡ length is)
        × (count (λ (r : Record). r.origins) rs ≡ 0)
        × (length rs ≡ length is)
  unfolding measured
  counts-measured n mode k [] c r a h = (refl, refl, refl, refl)
  counts-measured n mode k (i ∷ is) c r a h =
      let (good, below) = Goes-call n mode i (is_write_at b mode k) c r a.0 h in
      let (no_error, one, no_origin) = good in
      let (errors, all, origins, same) = counts-measured n mode (k + 1) is _ r a.1 below in
      (omega arith, omega arith, omega arith, omega arith)

  -- Preloading succeeds, and then every object of the set is held.
  record Loaded (i n : ℕ) (c : C) : Type 0 where
    last : C
    loaded : preload_from b i n c ≡ ok last
    holds : (j : ℕ) → i ≤ j → j < i + n → Holds j last
    still : (j : ℕ) → Holds j c → Holds j last

  stored-true : (p : Bool × C) → p.0 ≡ true → stored b p ≡ ok p.1
  stored-true (true, c) e = refl
  stored-true (false, c) e = cc

  preload_from-Loaded : (i n : ℕ) (c : C) → Loaded i n c
  unfolding preload_from
  preload_from-Loaded i zero c = record {
    last = c;
    loaded = refl;
    holds = λ j l u. absurd (omega arith);
    still = λ j h. h;
  }
  preload_from-Loaded i (suc n) c =
      let rest = preload_from-Loaded (i + 1) n (b.set i c).1 in
      record {
        last = rest.last;
        loaded = rw (stored-true (b.set i c) (keeps.sets i c)) rest.loaded;
        holds = λ j l u. elim (dec_le j i) [
          | yes p ↦
              let same : i ≡ j = omega arith in
              rest.still j (subst (λ k. Holds k (b.set i c).1) same (keeps.held i c))
          | no p ↦ rest.holds j (omega arith) (omega arith)
        ];
        still = λ j h. rest.still j (keeps.kept_set i j c h);
      }

-- The patterns that ask only for objects of the set.
abbrev pub is_of_set : Pattern → Bool
is_of_set uniform = true
is_of_set hot_shift = true
is_of_set skew = false
is_of_set one_pass = false

below-InRange :
    (pattern : Pattern) (n i : ℕ) → is_of_set pattern ≡ true → InRange pattern n i → i < n
below-InRange uniform n i h r = r
below-InRange hot_shift n i h r = r
below-InRange skew n i h r = cc
below-InRange one_pass n i h r = cc

All-places : (P : ℕ → Type 0) (is : List ℕ) → ((i : ℕ) → Place i is → P i) → All P is
All-places P [] f = tt
All-places P (i ∷ is) f = (f i here, All-places P is (λ j m. f j (there m)))

All-take : (P : ℕ → Type 0) (k : ℕ) (is : List ℕ) → All P is → All P (take k is)
All-take P zero is h = tt
All-take P (suc k) [] h = tt
All-take P (suc k) (i ∷ is) h = (h.0, All-take P k is h.1)

measured_part-reads :
    (mode : Mode) (k : ℕ) (is : List ℕ) → reads_all mode ≡ true → measured_part mode k is ≡ is
measured_part-reads hit k is h = refl
measured_part-reads mixed k is h = refl
measured_part-reads origin k is h = cc
measured_part-reads bypass k is h = cc

-- A run that reads or mixes, over a cache that keeps what it stores, and with a pattern that asks only
-- for objects of the set, as long as `randrange` draws below its bound: it ends with a report, after
-- preloading the set; no operation is an error or asks the origin, and every one is a hit or a write.
pub run_hits :
    {C : Type 0} (b : Backend C) (Holds : ℕ → C → Type 0)
    → Keeps b Holds
    → (randrange skewed : ℕ → ℕ → ℕ) → ((i width : ℕ) → 1 ≤ width → randrange i width < width)
    → ((i objects : ℕ) → skewed i objects ≤ objects)
    → (a : Args) (c : C) → reads_all a.mode ≡ true
    → is_of_set a.pattern_name ≡ true
    → 1 ≤ a.objects
    → (r : Report) × (run b randrange skewed a c ≡ ok r)
      × (r.preloaded_objects ≡ a.objects)
      × (r.counts.errors ≡ 0)
      × (r.counts.origin_requests ≡ 0)
      × (r.counts.object_hits + r.counts.write_operations ≡ r.counts.measured_operations)
unfolding run counts
run_hits b Holds keeps randrange skewed drawn drawn_skewed a c reads set some_object =
    let first = preload_from-Loaded b Holds keeps 0 a.objects c in
    let trace = make_trace randrange skewed a.pattern_name a.objects a.requests in
    let below : All (λ i. i < a.objects) trace =
      All-places (λ i. i < a.objects) trace
        (λ i m. below-InRange a.pattern_name a.objects i set (
          make_trace-InRange randrange skewed drawn drawn_skewed a.pattern_name a.objects a.requests
            some_object m)) in
    let k = min a.warmup (length trace) in
    let warm = warm_up b a.mode (take k trace) first.last in
    let held =
      warm_up-HoldsBelow b Holds keeps a.objects a.mode (take k trace) first.last reads
        (All-take (λ i. i < a.objects) k trace below)
        (λ j l. first.holds j (omega arith) (omega arith)) in
    let (errors, all, origins, same) =
      counts-measured b Holds keeps a.objects a.mode 0 trace warm reads below held in
    let report : Report = record {
      preloaded_objects = a.objects;
      warmup_operations = length (take k trace);
      counts = counts (measured b a.mode 0 trace warm);
    } in
    (
      report,
      rw (reads, first.loaded, measured_part-reads a.mode k trace reads) refl,
      refl,
      errors,
      origins,
      omega arith,
    )
