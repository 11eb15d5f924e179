-- ===== src/Http/Paths.antt =====
-- bench/strong/http_service.py: the paths that the service knows, by `re.fullmatch`. A path that a
-- request carries has characters up to 255, of which `\d` accepts the ASCII digits alone.
use Prim.Native.Char.{Char, code}
use cachelib_grpc_server.Common.{
  ℕ, ◌+◌, ◌-◌, ◌*◌, String, ◌==◌, Bool, true, false, ◌&&◌, Option, none, some, eqb, leb,
  if◌then◌else◌,
}

pub data Route : Type 0 where
  stats : Route
  object : ℕ → ℕ → Route
  unknown : Route

abbrev is_digit : Char → Bool
is_digit c = leb b'0' (code c) && leb (code c) b'9'

-- `(\d+)` up to the end: the number read so far, and whether a digit was read
abbrev pub number_to_end : ℕ → Bool → String → Option ℕ
number_to_end n seen String.[] = if seen then some n else none
number_to_end n seen (String.◌∷◌ c s) =
    let rest = number_to_end (n * 10 + (code c - b'0')) true s in if is_digit c then rest else none

abbrev object_of : ℕ → Option ℕ → Route
object_of size none = unknown
object_of size (some index) = object size index

-- `(\d+)/(\d+)`
abbrev pub numbers : ℕ → Bool → String → Route
numbers n seen String.[] = unknown
numbers n seen (String.◌∷◌ c s) =
    let rest = numbers (n * 10 + (code c - b'0')) true s in
    if is_digit c
    then rest
    else if seen && eqb (code c) b'/'
    then object_of n (number_to_end 0 false s)
    else unknown

abbrev after_prefix : Option String → Route
after_prefix none = unknown
after_prefix (some s) = numbers 0 false s

abbrev strip_prefix : String → String → Option String
strip_prefix String.[] s = some s
strip_prefix (String.◌∷◌ c p) String.[] = none
strip_prefix (String.◌∷◌ c p) (String.◌∷◌ d s) =
    let rest = strip_prefix p s in if eqb (code c) (code d) then rest else none

unfoldable pub route : String → Route
route path = if path == "/stats" then stats else after_prefix (strip_prefix "/obj/" path)
