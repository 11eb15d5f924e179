-- ===== src/Published/Render/Main.antt =====
-- bench/strong/render_release_report.py: `main`, which writes the report and the README, or checks
-- them. What makes a text of a document is a parameter.
use cachelib_grpc_server.Common.{
  String, ◌==◌, eq_iff, ◌≡◌, refl, ap, sym, ◌∙◌, Bool, true, false, not, ◌&&◌, List, [], ◌∷◌,
  Result, ok, err, ◌>>=◌, ◌>>◌, raise_if, >>=-eq-ok, ok_injective, and_intro, arith,
}
use cachelib_grpc_server.Published.Blocks.{
  Piece, begin, end, other, BlockError, replace_readme_headlines,
}
use cachelib_grpc_server.Published.Blocks.Again.{replace-again}
use cachelib_grpc_server.Published.Cells.{ReportError}
use cachelib_grpc_server.Published.Headlines.{HeadlineError}
use cachelib_grpc_server.Published.Headlines.Figures.{Headlines}
use cachelib_grpc_server.Published.Render.{Document}

pub data MainError : Type 0 where
  of_report : ReportError → MainError
  of_headlines : HeadlineError → MainError
  of_block : BlockError → MainError
  report_differs readme_differs : MainError

-- The two files that `main` reads and writes.
pub record Docs : Type 0 where
  pub report : String
  pub readme : List Piece

abbrev lift {ℓ κ} : {E : Type κ} {A : Type ℓ} → (E → MainError) → Result E A → Result MainError A
lift f (ok a) = ok a
lift f (err e) = err (f e)

-- Whether two texts are the same, by their pieces.
abbrev same_piece : Piece → Piece → Bool
same_piece begin begin = true
same_piece end end = true
same_piece (other s) (other t) = s == t
same_piece begin end = false
same_piece begin (other t) = false
same_piece end begin = false
same_piece end (other t) = false
same_piece (other s) begin = false
same_piece (other s) end = false

abbrev same_text : List Piece → List Piece → Bool
same_text [] [] = true
same_text [] (y ∷ ys) = false
same_text (x ∷ xs) [] = false
same_text (x ∷ xs) (y ∷ ys) = same_piece x y && same_text xs ys

module _ (report_text : Document → String) (headline_text : Headlines → String) where
  abbrev checked : Docs → String → List Piece → Result MainError Docs
  checked docs rendered readme = do
    raise_if (not (docs.report == rendered)) report_differs
    raise_if (not (same_text docs.readme readme)) readme_differs
    ok docs

  abbrev finished : Bool → Docs → String → List Piece → Result MainError Docs
  finished true docs rendered readme = checked docs rendered readme
  finished false docs rendered readme = ok (record { report = rendered; readme = readme })

  -- The files that a run leaves, without and with `--check`.
  unfoldable pub main :
      Bool
      → Result ReportError Document
      → Result HeadlineError Headlines
      → Docs
      → Result MainError Docs
  main check rendered headlines docs = do
    document ← lift of_report rendered
    headline ← lift of_headlines headlines
    readme ← lift of_block (replace_readme_headlines docs.readme (headline_text headline))
    finished check docs (report_text document) readme

same_piece_refl : (x : Piece) → same_piece x x ≡ true
same_piece_refl begin = refl
same_piece_refl end = refl
same_piece_refl (other t) = ground (arith, eq_iff t t)

same_text_refl : (xs : List Piece) → same_text xs xs ≡ true
same_text_refl [] = refl
same_text_refl (x ∷ xs) = and_intro (same_piece_refl x) (same_text_refl xs)

block-lift :
    (r : Result BlockError (List Piece)) {ps : List Piece} → lift of_block r ≡ ok ps → r ≡ ok ps
block-lift (ok a) h = ap (λ k. ok k) (ok_injective h)
block-lift (err e) h = cc

module _ (report_text : Document → String) (headline_text : Headlines → String) where
  accepts-main :
      (rendered : Result ReportError Document) (headlines : Result HeadlineError Headlines)
      (docs : Docs) {document : Document} {headline : Headlines}
      → lift of_report rendered ≡ ok document
      → lift of_headlines headlines ≡ ok headline
      → replace_readme_headlines docs.readme (headline_text headline) ≡ ok docs.readme
      → docs.report ≡ report_text document
      → main report_text headline_text true rendered headlines docs ≡ ok docs
  unfolding main
  accepts-main rendered headlines docs {document} {headline} d l r e =
      let same : (docs.report == report_text document) ≡ true =
        ground (arith, eq_iff docs.report (report_text document)) in
      rw (d, l, r, same, same_text_refl docs.readme) refl

  -- What `main` writes, `main --check` accepts and leaves as it is, as long as the evidence stays.
  pub main-checks :
      (rendered : Result ReportError Document) (headlines : Result HeadlineError Headlines)
      (docs : Docs) {docs' : Docs}
      → main report_text headline_text false rendered headlines docs ≡ ok docs'
      → main report_text headline_text true rendered headlines docs' ≡ ok docs'
  unfolding main
  main-checks rendered headlines docs {docs'} h =
      let (document, d, h1) = >>=-eq-ok (lift of_report rendered) _ h in
      let (headline, l, h2) = >>=-eq-ok (lift of_headlines headlines) _ h1 in
      let (readme, r, h3) =
        >>=-eq-ok (lift of_block (replace_readme_headlines docs.readme (headline_text headline))) _
          h2 in
      let written = ok_injective h3 in
      let readme_is : docs'.readme ≡ readme = sym (ap (λ (f : Docs). f.readme) written) in
      let block : replace_readme_headlines docs.readme (headline_text headline) ≡ ok docs'.readme =
        block-lift _ r ∙ sym (ap (λ k. ok k) readme_is) in
      accepts-main rendered headlines docs' d l
        (replace-again docs.readme (headline_text headline) "" block).1
        (sym (ap (λ (f : Docs). f.report) written))
