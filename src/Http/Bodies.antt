-- ===== src/Http/Bodies.antt =====
-- bench/strong/http_service.py: the bytes of a media object (`payload`).
pub mod Index
use cachelib_grpc_server.Common.{
  ℕ, zero, suc, ◌+◌, ◌*◌, ◌/◌, ◌%◌, ◌^◌, Option, none, some, List, [], ◌∷◌, ◌++◌, ltb,
  if◌then◌else◌,
}
use cachelib_grpc_server.Campaign.Spec.{range_from}

abbrev pub Bytes : Type 0
Bytes = List ℕ

-- `xs[:n]` and `xs[n:]`
abbrev pub take : ℕ → Bytes → Bytes
take zero xs = []
take (suc n) [] = []
take (suc n) (x ∷ xs) = x ∷ take n xs

abbrev pub drop : ℕ → Bytes → Bytes
drop zero xs = xs
drop (suc n) [] = []
drop (suc n) (x ∷ xs) = drop n xs

-- `bytes(range(256))`
abbrev pub block : Bytes
block = range_from 0 256

-- `block * n`
abbrev pub copies : ℕ → Bytes → Bytes
copies zero xs = []
copies (suc n) xs = xs ++ copies n xs

-- `index.to_bytes(n, "little")` of an index that fits
abbrev pub little : ℕ → ℕ → Bytes
little zero i = []
little (suc n) i = i % 256 ∷ little n (i / 256)

-- `payload`: without a body where `to_bytes` raises. The assignment to `body[:8]` puts eight bytes
-- in the place of the first eight, or of all if there are fewer.
unfoldable pub payload : ℕ → ℕ → Option Bytes
payload size index =
    if ltb index (2 ^ 64)
    then some (little 8 index ++ drop 8 (take size (copies (size / 256 + 1) block)))
    else none
