-- ===== src/Published/Blocks/Again.antt =====
-- A generated block is replaced by the next one, and nothing else is.
use cachelib_grpc_server.Common.{
  subst, ◌+◌, Bool, true, false, not, ◌||◌, ◌≡◌, refl, ap, ◌∙◌, sym, Option, none, some, List, [],
  ◌∷◌, ◌++◌, eqb, String, Result, ok, err, arith, Bool-cases, inl, inr,
}
use cachelib_grpc_server.Published.Blocks.{
  Piece, begin, end, other, is_begin, is_end, count, grown, cut, joined, around, BlockError,
  not_exactly_one, replace_readme_headlines,
}

count-append :
    (p : Piece → Bool) (xs ys : List Piece) → count p (xs ++ ys) ≡ count p xs + count p ys
count-append p [] ys = omega arith
count-append p (x ∷ xs) ys = let e = count-append p xs ys in ground arith

-- What a cut leaves on both sides.
record Cut (p : Piece → Bool) (xs before after : List Piece) : Type 0 where
  clear : count p before ≡ 0
  marker : Piece
  marked : p marker ≡ true
  whole : xs ≡ before ++ marker ∷ after

first :
    {a b : List Piece × List Piece}
    → ◌≡◌ {A = Option (List Piece × List Piece)} (some a) (some b)
    → a ≡ b
first h = cc

Cut-here :
    (p : Piece → Bool) (x : Piece) (xs : List Piece) {before after : List Piece}
    → p x ≡ true
    → ◌≡◌ {A = List Piece × List Piece} ([], xs) (before, after)
    → Cut p (x ∷ xs) before after
Cut-here p x xs e h =
    subst (λ (c : List Piece × List Piece). Cut p (x ∷ xs) c.0 c.1) h
      (record { clear = refl; marker = x; marked = e; whole = refl })

Cut-there :
    (p : Piece → Bool) (x : Piece) (xs : List Piece) (o : Option (List Piece × List Piece))
    {before after : List Piece}
    → p x ≡ false
    → ((b a : List Piece) → o ≡ some (b, a) → Cut p xs b a)
    → grown x o ≡ some (before, after)
    → Cut p (x ∷ xs) before after
Cut-there p x xs none e rest h = cc
Cut-there p x xs (some (b, a)) e rest h =
    let c = rest b a refl in
    subst (λ (c : List Piece × List Piece). Cut p (x ∷ xs) c.0 c.1) (first h)
      (record {
        clear = rw e c.clear;
        marker = c.marker;
        marked = c.marked;
        whole = ap (λ t. x ∷ t) c.whole;
      })

cut-Cut :
    (p : Piece → Bool) (xs : List Piece) {before after : List Piece}
    → cut p xs ≡ some (before, after)
    → Cut p xs before after
cut-Cut p [] h = cc
cut-Cut p (x ∷ xs) {before} {after} h = elim (Bool-cases (p x)) [
  | inl e ↦ Cut-here p x xs e (first (rw e at h))
  | inr e ↦ Cut-there p x xs (cut p xs) e (λ b a. cut-Cut p xs) (rw e at h)
]

cut-append :
    (p : Piece → Bool) (before : List Piece) (x : Piece) (after : List Piece)
    → count p before ≡ 0
    → p x ≡ true
    → cut p (before ++ x ∷ after) ≡ some (before, after)
cut-append p [] x after c e = rw e refl
cut-append p (y ∷ before) x after c e = elim (Bool-cases (p y)) [
  | inl f ↦ ground arith
  | inr f ↦ rw (f, cut-append p before x after (rw f at c) e) refl
]

-- The parts of a document that has the block once, and in order.
record Parts (before stale after : List Piece) : Type 0 where
  no_begin : count is_begin before + count is_begin stale + count is_begin after ≡ 0
  no_end : count is_end before + count is_end stale + count is_end after ≡ 0

abbrev whole : List Piece → List Piece → List Piece → List Piece
whole before stale after = before ++ begin ∷ (stale ++ end ∷ after)

count-whole :
    (p : Piece → Bool) (before stale after : List Piece)
    → count p (whole before stale after)
      ≡ count p before
        + (count p (begin ∷ []) + (count p stale + (count p (end ∷ []) + count p after)))
count-whole p before stale after =
    let outer = count-append p before (begin ∷ (stale ++ end ∷ after)) in
    let inner = count-append p stale (end ∷ after) in ground arith

replace-whole :
    (before stale after : List Piece) (t : String)
    → Parts before stale after
    → replace_readme_headlines (whole before stale after) t ≡ ok (whole before (other t ∷ []) after)
unfolding replace_readme_headlines
replace-whole before stale after t p =
    let n = p.no_begin in
    let m = p.no_end in
    let one_begin : count is_begin (whole before stale after) ≡ 1 =
      omega (arith, count-whole is_begin before stale after) in
    let one_end : count is_end (whole before stale after) ≡ 1 =
      omega (arith, count-whole is_end before stale after) in
    rw
      (
        one_begin,
        one_end,
        cut-append is_begin before begin (stale ++ end ∷ after) (omega arith) refl,
        cut-append is_end stale end after (omega arith) refl,
      )
      refl

begin_of : (p : Piece) → is_begin p ≡ true → p ≡ begin
begin_of begin e = refl
begin_of end e = cc
begin_of (other t) e = cc

end_of : (p : Piece) → is_end p ≡ true → p ≡ end
end_of begin e = cc
end_of end e = refl
end_of (other t) e = cc

-- Where a replacement succeeds, the document has the parts.
record Replaced (readme : List Piece) (t : String) (readme' : List Piece) : Type 0 where
  before : List Piece
  stale : List Piece
  after : List Piece
  parts : Parts before stale after
  was : readme ≡ whole before stale after
  is : readme' ≡ whole before (other t ∷ []) after

Replaced-joined :
    (readme : List Piece) (t : String) (before rest : List Piece)
    (o : Option (List Piece × List Piece)) {readme' : List Piece}
    → count is_begin readme ≡ 1
    → count is_end readme ≡ 1
    → count is_begin before ≡ 0
    → readme ≡ before ++ begin ∷ rest
    → cut is_end rest ≡ o
    → joined t before o ≡ ok readme'
    → Replaced readme t readme'
Replaced-joined readme t before rest none b e c w k h = cc
Replaced-joined readme t before rest (some (stale, after)) {readme'} b e c w k h =
    let d = cut-Cut is_end rest k in
    let same : readme ≡ whole before stale after =
      w
      ∙ ap (λ r. before ++ begin ∷ r)
          (d.whole ∙ ap (λ x. stale ++ x ∷ after) (end_of d.marker d.marked)) in
    let begins : count is_begin (whole before stale after) ≡ 1 = rw (← same) b in
    let ends : count is_end (whole before stale after) ≡ 1 = rw (← same) e in
    let clear = d.clear in
    record {
      before = before;
      stale = stale;
      after = after;
      parts = record {
        no_begin = omega (arith, count-whole is_begin before stale after);
        no_end = omega (arith, count-whole is_end before stale after);
      };
      was = same;
      is = cc;
    }

Replaced-around :
    (readme : List Piece) (t : String) (o : Option (List Piece × List Piece)) {readme' : List Piece}
    → count is_begin readme ≡ 1
    → count is_end readme ≡ 1
    → cut is_begin readme ≡ o
    → around t o ≡ ok readme'
    → Replaced readme t readme'
Replaced-around readme t none b e k h = cc
Replaced-around readme t (some (before, rest)) b e k h =
    let d = cut-Cut is_begin readme k in
    Replaced-joined readme t before rest (cut is_end rest) b e d.clear
      (d.whole ∙ ap (λ x. before ++ x ∷ rest) (begin_of d.marker d.marked)) refl h

replace-Replaced :
    (readme : List Piece) (t : String) {readme' : List Piece}
    → replace_readme_headlines readme t ≡ ok readme'
    → Replaced readme t readme'
unfolding replace_readme_headlines
replace-Replaced readme t {readme'} h =
    elim (Bool-cases (not (eqb (count is_begin readme) 1) || not (eqb (count is_end readme) 1))) [
      | inl e ↦ absurd (refused (rw e at h))
      | inr e ↦
          Replaced-around readme t (cut is_begin readme) (ground arith) (ground arith) refl
            (rw e at h)
    ]
  where
    refused : ◌≡◌ {A = Result BlockError (List Piece)} (err not_exactly_one) (ok readme') → ⊥
    refused e = cc

-- Where a generated block can be replaced at all, the document around it stays: replacing the block
-- of the new document by another text gives what replacing the block of the old one by it gives.
-- With the same text again, the document does not change, which is what `--check` compares.
pub replace-again :
    (readme : List Piece) (rendered next : String) {readme' : List Piece}
    → replace_readme_headlines readme rendered ≡ ok readme'
    → (replace_readme_headlines readme' next ≡ replace_readme_headlines readme next)
      × (replace_readme_headlines readme' rendered ≡ ok readme')
replace-again readme rendered next {readme'} h =
    let r = replace-Replaced readme rendered h in
    let fresh : Parts r.before (other rendered ∷ []) r.after = record {
      no_begin = (let n = r.parts.no_begin in omega arith);
      no_end = (let n = r.parts.no_end in omega arith);
    } in
    (
      ap (λ d. replace_readme_headlines d next) r.is
          ∙ replace-whole r.before (other rendered ∷ []) r.after next fresh
          ∙ sym (replace-whole r.before r.stale r.after next r.parts)
          ∙ sym (ap (λ d. replace_readme_headlines d next) r.was),
      ap (λ d. replace_readme_headlines d rendered) r.is
          ∙ replace-whole r.before (other rendered ∷ []) r.after rendered fresh
          ∙ sym (ap (λ d. ok d) r.is),
    )
