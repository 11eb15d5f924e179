-- ===== src/Summaries/Values.antt =====
-- bench/strong/summarize.py: the values of a row. A quotient is exact here, where the code has floats.
use cachelib_grpc_server.Common.{
  ℕ, zero, suc, ◌+◌, ◌*◌, String, Option, none, some, List, [], ◌∷◌, lookup,
}
use cachelib_grpc_server.Summaries.Integers.{ℤ, pos, negsuc, minus, neg}
use cachelib_grpc_server.Summaries.Counters.{value_or_zero}

-- `None`, an integer, a quotient, or what is copied from the result as it is.
pub data Value : Type 0 where
  absent : Value
  int : ℤ → Value
  quotient : ℤ → ℕ → Value
  copied : String → Value

abbrev pub Row : Type 0
Row = List (String × Value)

-- `x/n if n else None`
abbrev pub over : ℤ → ℕ → Value
over x zero = absent
over x (suc n) = quotient x (suc n)

abbrev pub over_int : ℤ → ℤ → Value
over_int x (pos n) = over x n
over_int x (negsuc n) = quotient (neg x) (suc n)

abbrev pub int_or_none : Option ℤ → Value
int_or_none none = absent
int_or_none (some z) = int z

abbrev pub nat_or_none : Option ℕ → Value
nat_or_none none = absent
nat_or_none (some n) = int (pos n)

abbrev pub copy_or_none : Option String → Value
copy_or_none none = absent
copy_or_none (some s) = copied s

-- `after.get(key, 0) - before.get(key, 0)`
abbrev pub growth : Option ℕ → Option ℕ → ℤ
growth before after = minus (value_or_zero after) (value_or_zero before)

abbrev pub grown : String → List (String × ℕ) → List (String × ℕ) → ℤ
grown name before after = growth (lookup name before) (lookup name after)

-- The sizes of the files below a directory: in bytes, and in blocks of 512 bytes.
pub record File : Type 0 where
  pub size : ℕ
  pub blocks : ℕ

abbrev pub logical_bytes : List File → ℕ
logical_bytes [] = 0
logical_bytes (f ∷ fs) = f.size + logical_bytes fs

abbrev pub allocated_bytes : List File → ℕ
allocated_bytes [] = 0
allocated_bytes (f ∷ fs) = f.blocks * 512 + allocated_bytes fs
