-- ===== src/Rendered/Main/Check.antt =====
-- What is written passes its check, and a check writes nothing.
use cachelib_grpc_server.Common.{
  ℕ, String, eq_iff, ◌≡◌, refl, ap, sym, ◌∙◌, subst, Bool, true, false, Bool-cases, inl, inr, ◌↔◌,
  Option, some, List, [], ◌∷◌, map, is_empty, if◌then◌else◌, Result, ok, err, ok_injective, All,
  arith, and_intro,
}
use cachelib_grpc_server.Rendered.Marked.{Piece, begin, end, other, Text, BlockError, apply_blocks}
use cachelib_grpc_server.Rendered.Marked.Again.{apply_blocks-again}
use cachelib_grpc_server.Rendered.Main.{
  Measurement, Block, blocks, same_piece, same_text, MainError, Files, Outcome, add_name,
  one_target, update, status, with_blocks, main,
}

same_piece_refl : (x : Piece) → same_piece x x ≡ true
same_piece_refl (begin n true) = ground (arith, eq_iff n n)
same_piece_refl (begin n false) = ground (arith, eq_iff n n)
same_piece_refl (end n) = ground (arith, eq_iff n n)
same_piece_refl (other t) = ground (arith, eq_iff t t)

same_text_refl : (xs : Text) → same_text xs xs ≡ true
same_text_refl [] = refl
same_text_refl (x ∷ xs) = and_intro (same_piece_refl x) (same_text_refl xs)

same_piece-eq : (x y : Piece) → same_piece x y ≡ true → x ≡ y
same_piece-eq (begin n true) (begin m true) h = ground (arith, eq_iff n m)
same_piece-eq (begin n true) (begin m false) h = ground (arith, eq_iff n m)
same_piece-eq (begin n false) (begin m true) h = ground (arith, eq_iff n m)
same_piece-eq (begin n false) (begin m false) h = ground (arith, eq_iff n m)
same_piece-eq (end n) (end m) h = ground (arith, eq_iff n m)
same_piece-eq (other s) (other t) h = ground (arith, eq_iff s t)
same_piece-eq (begin n nl) (end m) h = cc
same_piece-eq (begin n nl) (other t) h = cc
same_piece-eq (end n) (begin m ml) h = cc
same_piece-eq (end n) (other t) h = cc
same_piece-eq (other s) (begin m ml) h = cc
same_piece-eq (other s) (end m) h = cc

same_text-eq : (xs ys : Text) → same_text xs ys ≡ true → xs ≡ ys
same_text-eq [] [] h = refl
same_text-eq [] (y ∷ ys) h = cc
same_text-eq (x ∷ xs) [] h = cc
same_text-eq (x ∷ xs) (y ∷ ys) h =
    let first = same_piece-eq x y (ground arith) in
    let rest = same_text-eq xs ys (ground arith) in cc

module _ (rendered : List (String × String)) where
  -- A document that its rendering leaves as it is.
  abbrev pub IsCurrent : String × Text → Type 0
  IsCurrent file = apply_blocks rendered file.1 ≡ ok file.1

  written_one :
      (name : String) (before : Text) (files : Files) (r : Result BlockError Text) (o : Outcome)
      {names : List String}
      → apply_blocks rendered before ≡ r
      → (one_target false name before files r o).0 ≡ ok names
      → (o.0 ≡ ok names → (names ≡ []) × All IsCurrent o.1)
      → (names ≡ []) × All IsCurrent (one_target false name before files r o).1
  written_one name before files (err e) o a h later = cc
  written_one name before files (ok after) o a h later =
      elim (Bool-cases (same_text before after)) [
        | inl same ↦
            let (none_named, rest) = later (rw same at h) in
            let alike = same_text-eq before after same in
            rw same (none_named, (a ∙ ap (λ t. ok t) (sym alike), rest))
        | inr other_text ↦
            let (none_named, rest) = later (rw other_text at h) in
            rw other_text (none_named, (apply_blocks-again rendered before a, rest))
      ]

  update-IsCurrent :
      (files : Files) {names : List String}
      → (update false rendered files).0 ≡ ok names
      → (names ≡ []) × All IsCurrent (update false rendered files).1
  unfolding update
  update-IsCurrent [] h = (sym (ok_injective h), tt)
  update-IsCurrent ((name, before) ∷ files) h =
      written_one name before files (apply_blocks rendered before) (update false rendered files)
        refl h (λ k. update-IsCurrent files k)

  update_current :
      (check : Bool) (files : Files)
      → All IsCurrent files
      → update check rendered files ≡ (ok [], files)
  unfolding update
  update_current check [] c = refl
  update_current check ((name, before) ∷ files) c =
      rw (c.0, same_text_refl before, update_current check files c.1) refl

  checked_one :
      (name : String) (before : Text) (files : Files) (r : Result BlockError Text) (o : Outcome)
      → apply_blocks rendered before ≡ r
      → (one_target true name before files r o).0 ≡ ok []
      → IsCurrent (name, before) × (o.0 ≡ ok [])
  checked_one name before files (err e) o a h = cc
  checked_one name before files (ok after) (r, files') a h =
      elim (Bool-cases (same_text before after)) [
        | inl same ↦ (a ∙ ap (λ t. ok t) (sym (same_text-eq before after same)), rw same at h)
        | inr other_text ↦ absurd (named r (rw other_text at h))
      ]
    where
      named : (r : Result MainError (List String)) → add_name name r ≡ ok [] → ⊥
      named (ok names) h = cc
      named (err e) h = cc

  checked-IsCurrent : (files : Files) → (update true rendered files).0 ≡ ok [] → All IsCurrent files
  unfolding update
  checked-IsCurrent [] h = tt
  checked-IsCurrent ((name, before) ∷ files) h =
      let (current, rest) =
        checked_one name before files (apply_blocks rendered before) (update true rendered files)
          refl h in
      (current, checked-IsCurrent files rest)

  unwritten_one :
      (name : String) (before : Text) (files : Files) (r : Result BlockError Text) (o : Outcome)
      → o.1 ≡ files
      → (one_target true name before files r o).1 ≡ (name, before) ∷ files
  unwritten_one name before files (err e) o h = refl
  unwritten_one name before files (ok after) o h = elim (Bool-cases (same_text before after)) [
    | inl same ↦ rw same (ap (λ fs. (name, before) ∷ fs) h)
    | inr other_text ↦ rw other_text (ap (λ fs. (name, before) ∷ fs) h)
  ]

  check-unwritten : (files : Files) → (update true rendered files).1 ≡ files
  unfolding update
  check-unwritten [] = refl
  check-unwritten ((name, before) ∷ files) =
      unwritten_one name before files (apply_blocks rendered before) (update true rendered files)
        (check-unwritten files)

status-ok :
    (r : Result MainError (List String)) {n : ℕ}
    → status r ≡ ok n
    → (names : List String) × (r ≡ ok names) × (n ≡ (if is_empty names then 0 else 1))
status-ok (ok names) h = (names, refl, sym (ok_injective h))
status-ok (err e) h = cc

is_empty-nil : (names : List String) → ◌≡◌ {A = ℕ} (if is_empty names then 0 else 1) 0 → names ≡ []
is_empty-nil [] h = refl
is_empty-nil (n ∷ ns) h = absurd (omega arith)

module _ (written : Block → String) (digits : ℕ) (source : Option String) (m : Measurement) where
  abbrev pub texts : List (String × Block) → List (String × String)
  texts = map (λ (b : String × Block). (b.0, written b.1))

  written_passes :
      (files : Files) (bs : Result String (List (String × Block))) {n : ℕ}
      → (with_blocks written false files bs).0 ≡ ok n
      → (n ≡ 0)
        × (with_blocks written true (with_blocks written false files bs).1 bs
            ≡ (ok 0, (with_blocks written false files bs).1))
  written_passes files (err e) h = cc
  written_passes files (ok bs) h =
      let (names, r, s) = status-ok (update false (texts bs) files).0 h in
      let (none_named, current) = update-IsCurrent (texts bs) files r in
      (rw none_named at s, rw (update_current (texts bs) true _ current) refl)

  -- A run that writes the documents and does not raise ends with 0, and then a check of the same
  -- measurement ends with 0 and leaves the documents as they are.
  pub main-passes :
      (files : Files) {n : ℕ}
      → (main written digits false source (some m) files).0 ≡ ok n
      → (n ≡ 0)
        × (main written digits true source
              (some m)
              (main written digits false source (some m) files).1
            ≡ (ok 0, (main written digits false source (some m) files).1))
  unfolding main
  main-passes files h = written_passes files (blocks digits source m) h

  -- The blocks are made, and every document is as its rendering leaves it.
  abbrev pub AllCurrent : Files → Result String (List (String × Block)) → Type 0
  AllCurrent files made =
      (bs : List (String × Block)) × (made ≡ ok bs) × All (IsCurrent (texts bs)) files

  unwritten :
      (files : Files) (made : Result String (List (String × Block)))
      → (with_blocks written true files made).1 ≡ files
  unwritten files (err e) = refl
  unwritten files (ok bs) = check-unwritten (texts bs) files

  checked_blocks :
      (files : Files) (made : Result String (List (String × Block)))
      → ((with_blocks written true files made).0 ≡ ok 0) ↔ AllCurrent files made
  checked_blocks files (err e) = (λ h. cc, λ (bs, h, c). cc)
  checked_blocks files (ok bs) = (to, from)
    where
      to : status (update true (texts bs) files).0 ≡ ok 0 → AllCurrent files (ok bs)
      to h =
          let (names, r, s) = status-ok (update true (texts bs) files).0 h in
          let passed = r ∙ ap (λ ns. ok ns) (is_empty-nil names (sym s)) in
          (bs, refl, checked-IsCurrent (texts bs) files passed)

      from : AllCurrent files (ok bs) → status (update true (texts bs) files).0 ≡ ok 0
      from (cs, h, c) =
          let same : cs ≡ bs = sym (ok_injective h) in
          rw
            (update_current (texts bs) true files
              (subst (λ bs. All (IsCurrent (texts bs)) files) same c))
            refl

  -- A check writes no document, and it ends with 0 exactly when the blocks can be made of the
  -- measurement and every document has its blocks as they are rendered.
  pub check_exact :
      (files : Files)
      → ((main written digits true source (some m) files).1 ≡ files)
        × (((main written digits true source (some m) files).0 ≡ ok 0)
            ↔ AllCurrent files (blocks digits source m))
  unfolding main
  check_exact files =
      (unwritten files (blocks digits source m), checked_blocks files (blocks digits source m))
