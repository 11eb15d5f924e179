-- ===== src/Rendered/Marked.antt =====
-- bench/render.py: documents with generated blocks (MARKER, `apply_blocks`). A document is the
-- sequence of its markers and of the texts between them; a generated text has no marker in it.
pub mod Again
use cachelib_grpc_server.Common.{
  String, ◌==◌, Bool, true, false, ◌||◌, Option, none, some, List, [], ◌∷◌, lookup, prepend,
  if◌then◌else◌, Result, ok, err, ◌>>=◌,
}

-- A marker that begins a block has its name, and whether a line ends after it.
pub data Piece : Type 0 where
  begin : String → Bool → Piece
  end : String → Piece
  other : String → Piece

abbrev pub Text : Type 0
Text = List Piece

abbrev pub ends : String → Piece → Bool
ends name (begin n nl) = false
ends name (end n) = n == name
ends name (other t) = false

-- Whether the block `name` is closed in the rest of the text.
abbrev pub is_closed : String → Text → Bool
is_closed name [] = false
is_closed name (x ∷ xs) = ends name x || is_closed name xs

pub data BlockError : Type 0 where
  unknown_block : String → BlockError
  no_markers : BlockError

abbrev pub rendered_block : String → Option String → Result BlockError String
rendered_block name none = err (unknown_block name)
rendered_block name (some text) = ok text

-- What stands between the markers of a block is passed over up to the first that closes it.
pub data Mode : Type 0 where
  outside : Mode
  inside : String → Mode

abbrev pub put : Piece → Result BlockError Text → Result BlockError Text
put x (ok out) = ok (x ∷ out)
put x (err e) = err e

-- The text of a block, with `sep` after it.
abbrev pub body_of : String → Bool → String
body_of text nl = prepend text (if nl then "\n" else "")

module _ (rendered : List (String × String)) where
  -- The beginning of a block that is closed, with the text that is put in.
  abbrev pub filled :
      String → Bool → Result BlockError String → Result BlockError Text → Result BlockError Text
  filled name nl (err e) rest = err e
  filled name nl (ok text) rest = put (begin name nl) (put (other (body_of text nl)) rest)

  -- `MARKER.sub(sub, text)`
  unfoldable pub substitute : Mode → Text → Result BlockError Text
  substitute mode [] = ok []
  substitute outside (begin name nl ∷ xs) =
      let block =
        filled name nl (rendered_block name (lookup name rendered)) (substitute (inside name) xs) in
      let plain = put (begin name nl) (substitute outside xs) in
      if is_closed name xs then block else plain
  substitute outside (end name ∷ xs) = put (end name) (substitute outside xs)
  substitute outside (other t ∷ xs) = put (other t) (substitute outside xs)
  substitute (inside name) (x ∷ xs) =
      let closed = put x (substitute outside xs) in
      let skipped = substitute (inside name) xs in if ends name x then closed else skipped

-- Whether some block is found: `seen` is not empty.
unfoldable pub has_block : Text → Bool
has_block [] = false
has_block (begin name nl ∷ xs) = is_closed name xs || has_block xs
has_block (end name ∷ xs) = has_block xs
has_block (other t ∷ xs) = has_block xs

unfoldable pub apply_blocks : List (String × String) → Text → Result BlockError Text
unfolding substitute has_block
apply_blocks rendered text = do
  out ← substitute rendered outside text
  if has_block text then ok out else err no_markers
