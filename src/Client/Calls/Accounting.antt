-- ===== src/Client/Calls/Accounting.antt =====
-- What the counts of a run add up to.
use cachelib_grpc_server.Common.{
  ℕ, suc, ◌+◌, ◌≤◌, ◌≡◌, refl, Bool, Option, List, [], ◌∷◌, length, arith, ap,
}
use cachelib_grpc_server.Client.Calls.{
  Mode, hit, origin, mixed, bypass, Backend, Record, found, read_or_write, call, is_write_at,
  measured, one_if, one_if_some, count, counts,
}

-- A call is at most one of a write, a hit and an origin request, and none of them only with an error.
abbrev Accounted : Record → Type 0
Accounted r =
    (one_if r.is_write + one_if r.is_hit + r.origins ≤ 1)
    × (1 ≤ one_if r.is_write + one_if r.is_hit + r.origins + one_if_some r.error)

module _ {C : Type 0} (b : Backend C) where
  read_or_write-Accounted :
      (mode : Mode) (index : ℕ) (write : Bool) (c : C)
      → Accounted (read_or_write b mode index write c).0
  read_or_write-Accounted mode index write c = (ground arith, ground arith)

  call-Accounted :
      (mode : Mode) (index : ℕ) (write : Bool) (c : C) → Accounted (call b mode index write c).0
  unfolding call
  call-Accounted bypass index write c = (omega arith, omega arith)
  call-Accounted hit index write c = read_or_write-Accounted hit index write c
  call-Accounted origin index write c = read_or_write-Accounted origin index write c
  call-Accounted mixed index write c = read_or_write-Accounted mixed index write c

  measured-adds :
      (mode : Mode) (n : ℕ) (indices : List ℕ) (c : C)
      → let rs = measured b mode n indices c in
        (count (λ (r : Record). one_if r.is_write) rs
            + count (λ (r : Record). one_if r.is_hit) rs
            + count (λ (r : Record). r.origins) rs
          ≤ length rs)
        × (length rs
            ≤ count (λ (r : Record). one_if r.is_write) rs
              + count (λ (r : Record). one_if r.is_hit) rs
              + count (λ (r : Record). r.origins) rs
              + count (λ (r : Record). one_if_some r.error) rs)
  unfolding measured
  measured-adds mode n [] c = (omega arith, omega arith)
  measured-adds mode n (index ∷ indices) c =
      let (r, c') = call b mode index (is_write_at b mode n) c in
      let (low, high) = measured-adds mode (n + 1) indices c' in
      let (one, some_of) = call-Accounted mode index (is_write_at b mode n) c in
      (omega arith, omega arith)

  length-measured :
      (mode : Mode) (n : ℕ) (indices : List ℕ) (c : C)
      → length (measured b mode n indices c) ≡ length indices
  unfolding measured
  length-measured mode n [] c = refl
  length-measured mode n (index ∷ indices) c =
      ap suc (length-measured mode (n + 1) indices (call b mode index (is_write_at b mode n) c).1)

  -- In every mode the reads and the writes of a run are its operations; hits and origin requests are
  -- reads, each counted once, and a read that is neither is an error.
  pub counts_add :
      (mode : Mode) (indices : List ℕ) (c : C)
      → let k = counts (measured b mode 0 indices c) in
        (k.measured_operations ≡ length indices)
        × (k.read_operations + k.write_operations ≡ k.measured_operations)
        × (k.object_hits + k.origin_requests ≤ k.read_operations)
        × (k.read_operations ≤ k.object_hits + k.origin_requests + k.errors)
  unfolding counts
  counts_add mode indices c =
      let (low, high) = measured-adds mode 0 indices c in
      (length-measured mode 0 indices c, omega arith, omega arith, omega arith)

  origin_read :
      (g : Option Bool × C) (index : ℕ)
      → let r = (found b origin index g).0 in
        (one_if r.is_write ≡ 0) × (one_if r.is_hit + r.origins ≡ 1)
  origin_read g index = (ground arith, ground arith)

  origin_adds :
      (n : ℕ) (indices : List ℕ) (c : C)
      → let rs = measured b origin n indices c in
        (count (λ (r : Record). one_if r.is_write) rs ≡ 0)
        × (count (λ (r : Record). one_if r.is_hit) rs + count (λ (r : Record). r.origins) rs
            ≡ length indices)
  unfolding measured call
  origin_adds n [] c = (refl, refl)
  origin_adds n (index ∷ indices) c =
      let (r, c') = found b origin index (b.get index c) in
      let (writes, reads) = origin_adds (n + 1) indices c' in
      let (no_write, one) = origin_read (b.get index c) index in (omega arith, omega arith)

  -- A run against an origin only reads, and each of its operations is either a hit or one request to
  -- the origin.
  pub counts_origin :
      (indices : List ℕ) (c : C)
      → let k = counts (measured b origin 0 indices c) in
        (k.write_operations ≡ 0) × (k.object_hits + k.origin_requests ≡ length indices)
  unfolding counts
  counts_origin indices c = origin_adds 0 indices c
