-- ===== src/Published/Blocks.antt =====
-- bench/strong/render_release_report.py: the block of a document that is generated
-- (`replace_readme_headlines`). A document is the sequence of its markers and of the texts between
-- them; a generated text has no marker in it.
pub mod Again
use cachelib_grpc_server.Common.{
  ℕ, suc, Bool, true, false, not, ◌||◌, Option, none, some, List, [], ◌∷◌, ◌++◌, eqb, if◌then◌else◌,
  String, Result, ok, err,
}

pub data Piece : Type 0 where
  begin : Piece
  end : Piece
  other : String → Piece

abbrev pub is_begin : Piece → Bool
is_begin begin = true
is_begin end = false
is_begin (other t) = false

abbrev pub is_end : Piece → Bool
is_end begin = false
is_end end = true
is_end (other t) = false

-- `readme.count(marker)`
abbrev pub count : (Piece → Bool) → List Piece → ℕ
count p [] = 0
count p (x ∷ xs) = let rest = count p xs in if p x then suc rest else rest

abbrev pub grown : Piece → Option (List Piece × List Piece) → Option (List Piece × List Piece)
grown x none = none
grown x (some (before, after)) = some (x ∷ before, after)

-- `readme.split(marker)`, at the first of its places
abbrev pub cut : (Piece → Bool) → List Piece → Option (List Piece × List Piece)
cut p [] = none
cut p (x ∷ xs) = let rest = cut p xs in if p x then some ([], xs) else grown x rest

pub data BlockError : Type 0 where
  not_exactly_one out_of_order : BlockError

abbrev pub joined :
    String → List Piece → Option (List Piece × List Piece) → Result BlockError (List Piece)
joined rendered before none = err out_of_order
joined rendered before (some (stale, after)) = ok (before ++ begin ∷ other rendered ∷ end ∷ after)

abbrev pub around : String → Option (List Piece × List Piece) → Result BlockError (List Piece)
around rendered none = err out_of_order
around rendered (some (before, rest)) = joined rendered before (cut is_end rest)

unfoldable pub replace_readme_headlines : List Piece → String → Result BlockError (List Piece)
replace_readme_headlines readme rendered =
    if not (eqb (count is_begin readme) 1) || not (eqb (count is_end readme) 1)
    then err not_exactly_one
    else around rendered (cut is_begin readme)
