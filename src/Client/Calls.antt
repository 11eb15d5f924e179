-- ===== src/Client/Calls.antt =====
-- bench/investigation/client.py: the calls of a run (`run`), one after another, as with one worker.
-- The cache is a parameter; a call that raises ends the program and is not modelled.
pub mod Accounting
use cachelib_grpc_server.Common.{
  ℕ, zero, suc, ◌+◌, ◌-◌, ◌*◌, ◌%◌, min, Bool, true, false, Option, none, some, List, [], ◌∷◌, eqb,
  length, String, if◌then◌else◌, Result, ok, err,
}

pub data Mode : Type 0 where
  hit origin mixed bypass : Mode

-- `Backend.get` and `Backend.set` by the index of the key, with the cache's state. Of a value that
-- is found, only whether it is the expected one counts.
pub record Backend (C : Type 0) : Type 0 where
  pub get : ℕ → C → Option Bool × C
  pub set : ℕ → C → Bool × C

-- What a call returns, without its latency.
pub record Record : Type 0 where
  pub is_hit : Bool
  pub origins : ℕ
  pub error : Option String
  pub is_write : Bool

abbrev pub record_of : Bool → ℕ → Option String → Bool → Record
record_of is_hit origins error is_write = record {
  is_hit = is_hit;
  origins = origins;
  error = error;
  is_write = is_write;
}

module _ {C : Type 0} (b : Backend C) where
  abbrev pub written : Bool × C → Record × C
  written (true, c) = (record_of false 0 none true, c)
  written (false, c) = (record_of false 0 (some "write failed") true, c)

  abbrev filled : Bool × C → Record × C
  filled (true, c) = (record_of false 1 none false, c)
  filled (false, c) = (record_of false 1 (some "cache fill failed") false, c)

  abbrev pub missed : Mode → ℕ → C → Record × C
  missed origin index c = filled (b.set index c)
  missed hit index c = (record_of false 0 (some "unexpected miss") false, c)
  missed mixed index c = (record_of false 0 (some "unexpected miss") false, c)
  missed bypass index c = (record_of false 0 (some "unexpected miss") false, c)

  abbrev pub found : Mode → ℕ → Option Bool × C → Record × C
  found mode index (some true, c) = (record_of true 0 none false, c)
  found mode index (some false, c) = (record_of true 0 (some "value mismatch") false, c)
  found mode index (none, c) = missed mode index c

  abbrev pub read_or_write : Mode → ℕ → Bool → C → Record × C
  read_or_write mode index true c = written (b.set index c)
  read_or_write mode index false c = found mode index (b.get index c)

  unfoldable pub call : Mode → ℕ → Bool → C → Record × C
  call bypass index write c = (record_of false 1 none false, c)
  call hit index write c = read_or_write hit index write c
  call origin index write c = read_or_write origin index write c
  call mixed index write c = read_or_write mixed index write c

  abbrev is_mixed : Mode → Bool
  is_mixed mixed = true
  is_mixed hit = false
  is_mixed origin = false
  is_mixed bypass = false

  -- `args.mode == "mixed" and n % 10 == 0`
  abbrev pub is_write_at : Mode → ℕ → Bool
  is_write_at mode n = if is_mixed mode then eqb (n % 10) 0 else false

  -- The records of the measured operations, from the `n`-th on.
  unfoldable pub measured : Mode → ℕ → List ℕ → C → List Record
  measured mode n [] c = []
  measured mode n (index ∷ indices) c =
      let (r, c') = call mode index (is_write_at mode n) c in r ∷ measured mode (n + 1) indices c'

pub record Counts : Type 0 where
  pub measured_operations : ℕ
  pub read_operations : ℕ
  pub write_operations : ℕ
  pub object_hits : ℕ
  pub origin_requests : ℕ
  pub errors : ℕ

abbrev pub one_if : Bool → ℕ
one_if true = 1
one_if false = 0

abbrev pub one_if_some : Option String → ℕ
one_if_some none = 0
one_if_some (some e) = 1

abbrev pub count : (Record → ℕ) → List Record → ℕ
count f [] = 0
count f (r ∷ rs) = f r + count f rs

-- The counts that `run` returns.
unfoldable pub counts : List Record → Counts
counts rs =
    let writes = count (λ (r : Record). one_if r.is_write) rs in
    record {
      measured_operations = length rs;
      read_operations = length rs - writes;
      write_operations = writes;
      object_hits = count (λ (r : Record). one_if r.is_hit) rs;
      origin_requests = count (λ (r : Record). r.origins) rs;
      errors = count (λ (r : Record). one_if_some r.error) rs;
    }
