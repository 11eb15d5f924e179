-- ===== src/Http/Bodies/Index.antt =====
-- The bytes of an object: as many as asked for, and they tell the object's index.
use cachelib_grpc_server.Common.{
  ℕ, zero, suc, ◌+◌, ◌*◌, ◌/◌, ◌^◌, ◌≤◌, ◌<◌, ◌≡◌, refl, ap, ◌∙◌, some, [], ◌∷◌, ◌++◌, ltb, arith,
  length, length-append, true,
}
use cachelib_grpc_server.Http.Bodies.{Bytes, take, drop, block, copies, little, payload}

length-little : (n i : ℕ) → length (little n i) ≡ n
length-little zero i = refl
length-little (suc n) i = ap suc (length-little n (i / 256))

length-take : (n : ℕ) (xs : Bytes) → n ≤ length xs → length (take n xs) ≡ n
length-take zero xs h = refl
length-take (suc n) [] h = absurd (omega arith)
length-take (suc n) (x ∷ xs) h = let e = length-take n xs (omega arith) in omega arith

length-drop : (n : ℕ) (xs : Bytes) → n ≤ length xs → length (drop n xs) + n ≡ length xs
length-drop zero xs h = omega arith
length-drop (suc n) [] h = absurd (omega arith)
length-drop (suc n) (x ∷ xs) h = let e = length-drop n xs (omega arith) in omega arith

length-copies : (n : ℕ) (xs : Bytes) → length (copies n xs) ≡ n * length xs
length-copies zero xs = omega arith
length-copies (suc n) xs =
    let e = length-copies n xs in let a = length-append xs (copies n xs) in omega arith

-- The number that little-endian bytes stand for.
abbrev pub from_little : Bytes → ℕ
from_little [] = 0
from_little (b ∷ bs) = b + 256 * from_little bs

from_little-little : (n i : ℕ) → i < 256 ^ n → from_little (little n i) ≡ i
from_little-little zero i h = omega arith
from_little-little (suc n) i h = let e = from_little-little n (i / 256) (omega arith) in omega arith

take-append : (xs ys : Bytes) → take (length xs) (xs ++ ys) ≡ xs
take-append [] ys = refl
take-append (x ∷ xs) ys = ap (λ zs. x ∷ zs) (take-append xs ys)

abbrev with_index : ℕ → ℕ → Bytes
with_index size index = little 8 index ++ drop 8 (take size (copies (size / 256 + 1) block))

length-body : (size index : ℕ) → 8 ≤ size → length (with_index size index) ≡ size
length-body size index h =
    let c = length-copies (size / 256 + 1) block in
    let t = length-take size (copies (size / 256 + 1) block) (omega arith) in
    let d = length-drop 8 (take size (copies (size / 256 + 1) block)) (omega arith) in
    let a = length-append (little 8 index) (drop 8 (take size (copies (size / 256 + 1) block))) in
    omega arith

-- An object of at least eight bytes whose index fits into eight has a body; the body has the size
-- that was asked for, and its first eight bytes are the index, so that objects of different indices
-- have different bodies.
pub payload_body :
    (size index : ℕ)
    → 8 ≤ size
    → index < 2 ^ 64
    → (bytes : Bytes) × (payload size index ≡ some bytes)
      × (length bytes ≡ size)
      × (from_little (take 8 bytes) ≡ index)
unfolding payload
payload_body size index h k =
    let fits : ltb index (2 ^ 64) ≡ true = ground arith in
    (
      with_index size index,
      rw fits refl,
      length-body size index h,
      ap from_little
            (take-append (little 8 index) (drop 8 (take size (copies (size / 256 + 1) block))))
          ∙ from_little-little 8 index (omega arith),
    )
