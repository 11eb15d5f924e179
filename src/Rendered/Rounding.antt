-- ===== src/Rendered/Rounding.antt =====
-- bench/render.py: `_round`, which rounds half away from zero. A measured number is not negative; its
-- text has `digits` digits after the point, and it is `n` without the point.
use cachelib_grpc_server.Common.{ℕ, ◌+◌, ◌-◌, ◌*◌, ◌/◌, ◌%◌, ◌^◌, ltb, leb, if◌then◌else◌}

-- A digit string without its last digits, which are below `unit`: they round up from a half on.
abbrev drop_half_up : ℕ → ℕ → ℕ
drop_half_up n unit = if ltb (2 * (n % unit)) unit then n / unit else n / unit + 1

-- `Decimal.quantize` with ROUND_HALF_UP, in units of the last of `places` places: zeros are added, or
-- digits dropped.
unfoldable pub round_half_up : ℕ → ℕ → ℕ → ℕ
round_half_up n digits places =
    if leb digits places
    then n * 10 ^ (places - digits)
    else drop_half_up n (10 ^ (digits - places))
