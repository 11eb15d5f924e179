-- ===== src/Common/Texts.antt =====
-- Texts that are compared whole, lists of them, and dictionaries keyed by them.
use Prim.Native.Nat.{ℕ}
use Prim.Native.Char.{code}
use Prim.Native.String.{String}
use mathlib.Core.Path.{◌≡◌, refl}
use mathlib.Core.Bool.{Bool, true, false, ◌||◌}
use mathlib.Core.List.{List, [], ◌∷◌}
use mathlib.Core.Option.{Option, none, some}
use native.Mathlib.Omega.{arith}
use text.Mathlib.Text.{◌==◌}
use text.Mathlib.TextEquality.{eq_iff}
use cachelib_grpc_server.Common.Tests.{eqb, if◌then◌else◌}

-- `name in names`
abbrev pub elem : String → List String → Bool
elem k [] = false
elem k (x ∷ xs) = x == k || elem k xs

-- `s.startswith(p)`
abbrev pub starts_with : String → String → Bool
starts_with String.[] s = true
starts_with (String.◌∷◌ c p) String.[] = false
starts_with (String.◌∷◌ c p) (String.◌∷◌ d s) =
    if eqb (code c) (code d) then starts_with p s else false

-- `p + s`, which computes on the first text alone
abbrev pub prepend : String → String → String
prepend String.[] s = s
prepend (String.◌∷◌ c p) s = String.◌∷◌ c (prepend p s)

-- `s.split(sep)[0]` for a separator of one character
abbrev pub before_first : ℕ → String → String
before_first sep String.[] = ""
before_first sep (String.◌∷◌ c s) =
    if eqb (code c) sep then "" else String.◌∷◌ c (before_first sep s)

-- `s.split(sep, 1)[1]` for a separator of one character, if there is one
abbrev pub after_first : ℕ → String → Option String
after_first sep String.[] = none
after_first sep (String.◌∷◌ c s) = if eqb (code c) sep then some s else after_first sep s

module _ {ℓ} {V : Type ℓ} where
  -- A Python dict: `d.get(k)`, and `d[k] = v`.
  abbrev pub lookup : String → List (String × V) → Option V
  lookup k [] = none
  lookup k ((j, v) ∷ d) = if j == k then some v else lookup k d

  abbrev pub insert : String → V → List (String × V) → List (String × V)
  insert k v [] = (k, v) ∷ []
  insert k v ((j, w) ∷ d) = if j == k then (k, v) ∷ d else (j, w) ∷ insert k v d

  pub lookup-insert :
      (k j : String) (v : V) (d : List (String × V))
      → lookup j (insert k v d) ≡ (if k == j then some v else lookup j d)
  lookup-insert k j v [] = refl
  lookup-insert k j v ((i, w) ∷ d) =
      ground (arith, eq_iff k j, eq_iff i k, eq_iff i j, lookup-insert k j v d)
