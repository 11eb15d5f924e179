-- ===== src/Reports/Floats.antt =====
-- Numbers of double precision, as far as bench/report.py needs them: positive, at least a thousandth,
-- and below 2 ^ 53. A result of an operation is the nearest of them, of two as near the even one.
use cachelib_grpc_server.Common.{ℕ, zero, suc, ◌+◌, ◌*◌, ◌/◌, ◌%◌, ◌^◌, ltb, eqb, if◌then◌else◌}

-- `round(num / den)`: halves go to the even neighbour
unfoldable pub round : ℕ → ℕ → ℕ
round num den =
    if ltb (num % den * 2) den
    then num / den
    else if ltb den (num % den * 2)
    then num / den + 1
    else if eqb (num / den % 2) 0
    then num / den
    else num / den + 1

-- `mantissa / 2 ^ shift`
pub record Float : Type 0 where
  pub mantissa : ℕ
  pub shift : ℕ

-- The mantissa has 53 bits: the quotient is doubled until it has them, 64 times at most.
abbrev scaled : ℕ → ℕ → ℕ → ℕ → Float
scaled zero num den shift = record { mantissa = round num den; shift = shift }
scaled (suc fuel) num den shift =
    let rest = scaled fuel (num * 2) den (shift + 1) in
    if ltb num (2 ^ 52 * den) then rest else record { mantissa = round num den; shift = shift }

-- The number that stands for `num / den`.
unfoldable pub nearest : ℕ → ℕ → Float
unfolding round
nearest num den = scaled 64 num den 0

-- `x / n`, `x * n`, `x + 0.5` and `round(x)`
abbrev pub divided_by : Float → ℕ → Float
divided_by x n = nearest x.mantissa (2 ^ x.shift * n)

abbrev pub times : Float → ℕ → Float
times x n = nearest (x.mantissa * n) (2 ^ x.shift)

abbrev pub plus_half : Float → Float
plus_half x = nearest (2 * x.mantissa + 2 ^ x.shift) (2 * 2 ^ x.shift)

abbrev pub rounded : Float → ℕ
rounded x = round x.mantissa (2 ^ x.shift)
