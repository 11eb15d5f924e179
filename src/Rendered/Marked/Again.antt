-- ===== src/Rendered/Marked/Again.antt =====
-- A document that has been filled is left as it is.
use cachelib_grpc_server.Common.{
  String, ◌≡◌, refl, sym, ◌∙◌, Bool, true, false, Bool-cases, inl, inr, List, [], ◌∷◌, lookup,
  Result, ok, err, >>=-eq-ok, ok_injective, arith,
}
use cachelib_grpc_server.Rendered.Marked.{
  Piece, begin, end, other, Text, ends, is_closed, BlockError, rendered_block, Mode, outside,
  inside, put, body_of, filled, substitute, has_block, apply_blocks,
}

put-eq-ok :
    (x : Piece) (r : Result BlockError Text) {out : Text}
    → put x r ≡ ok out
    → (rest : Text) × (r ≡ ok rest) × (out ≡ x ∷ rest)
put-eq-ok x (ok rest) h = (rest, refl, sym (ok_injective h))
put-eq-ok x (err e) h = cc

module _ (rendered : List (String × String)) where
  filled-eq-ok :
      (name : String) (nl : Bool) (r : Result BlockError String) (rest : Result BlockError Text)
      {out : Text}
      → filled rendered name nl r rest ≡ ok out
      → (text : String) × (tail : Text) × (r ≡ ok text)
        × (rest ≡ ok tail)
        × (out ≡ begin name nl ∷ other (body_of text nl) ∷ tail)
  filled-eq-ok name nl (err e) rest h = cc
  filled-eq-ok name nl (ok text) (err e) h = cc
  filled-eq-ok name nl (ok text) (ok tail) h = (text, tail, refl, refl, sym (ok_injective h))

  -- No block is closed that was not closed before.
  stays-open :
      (n : String) (mode : Mode) (xs : Text) {out : Text}
      → is_closed n xs ≡ false
      → substitute rendered mode xs ≡ ok out
      → is_closed n out ≡ false
  unfolding substitute
  stays-open n outside [] c h = rw (← ok_injective h) c
  stays-open n (inside name) [] c h = rw (← ok_injective h) c
  stays-open n outside (begin name nl ∷ xs) c h = elim (Bool-cases (is_closed name xs)) [
    | inl k ↦
        let (text, tail, r, t, o) = filled-eq-ok name nl _ _ (rw k at h) in
        rw o (stays-open n (inside name) xs c t)
    | inr k ↦
        let (rest, r, o) = put-eq-ok (begin name nl) _ (rw k at h) in
        rw o (stays-open n outside xs c r)
  ]
  stays-open n outside (end name ∷ xs) c h =
      let (rest, r, o) = put-eq-ok (end name) _ h in
      let later = stays-open n outside xs (ground arith) r in rw o (ground arith)
  stays-open n outside (other t ∷ xs) c h =
      let (rest, r, o) = put-eq-ok (other t) _ h in rw o (stays-open n outside xs c r)
  stays-open n (inside name) (x ∷ xs) c h = elim (Bool-cases (ends name x)) [
    | inl k ↦
        let (rest, r, o) = put-eq-ok x _ (rw k at h) in
        let later = stays-open n outside xs (ground arith) r in rw o (ground arith)
    | inr k ↦ stays-open n (inside name) xs (ground arith) (rw k at h)
  ]

  -- What is left of a block that is closed: its marker, and a rest that is filled.
  abbrev IsRest : String → Text → Type 0
  IsRest name out =
      (e : Piece) × (rest : Text) × (ends name e ≡ true)
      × (out ≡ e ∷ rest)
      × (substitute rendered outside rest ≡ ok rest)

  refill :
      (name : String) (nl : Bool) (text : String) {out : Text}
      → rendered_block name (lookup name rendered) ≡ ok text
      → IsRest name out
      → substitute rendered outside (begin name nl ∷ other (body_of text nl) ∷ out)
        ≡ ok (begin name nl ∷ other (body_of text nl) ∷ out)
  unfolding substitute
  refill name nl text r (e, rest, k, o, s) = rw (o, r, k, s) refl

  mutual
    unfolding substitute

    filled_again :
        (xs : Text) {out : Text}
        → substitute rendered outside xs ≡ ok out
        → substitute rendered outside out ≡ ok out
    filled_again [] h = rw (← ok_injective h) refl
    filled_again (begin name nl ∷ xs) h = elim (Bool-cases (is_closed name xs)) [
      | inl k ↦
          let (text, tail, r, t, o) = filled-eq-ok name nl _ _ (rw k at h) in
          rw o (refill name nl text r (skipped xs name k t))
      | inr k ↦
          let (rest, r, o) = put-eq-ok (begin name nl) _ (rw k at h) in
          rw (o, stays-open name outside xs k r, filled_again xs r) refl
    ]
    filled_again (end name ∷ xs) h =
        let (rest, r, o) = put-eq-ok (end name) _ h in rw (o, filled_again xs r) refl
    filled_again (other t ∷ xs) h =
        let (rest, r, o) = put-eq-ok (other t) _ h in rw (o, filled_again xs r) refl

    skipped :
        (xs : Text) (name : String) {out : Text}
        → is_closed name xs ≡ true
        → substitute rendered (inside name) xs ≡ ok out
        → IsRest name out
    skipped [] name c h = cc
    skipped (x ∷ xs) name c h = elim (Bool-cases (ends name x)) [
      | inl k ↦ let (rest, r, o) = put-eq-ok x _ (rw k at h) in (x, rest, k, o, filled_again xs r)
      | inr k ↦ skipped xs name (rw k at c) (rw k at h)
    ]

  closed-IsRest : (name : String) {out : Text} → IsRest name out → is_closed name out ≡ true
  closed-IsRest name (e, rest, k, o, s) = rw (o, k) refl

  keeps-block :
      (xs : Text) {out : Text}
      → has_block xs ≡ true
      → substitute rendered outside xs ≡ ok out
      → has_block out ≡ true
  unfolding substitute has_block
  keeps-block [] b h = cc
  keeps-block (begin name nl ∷ xs) b h = elim (Bool-cases (is_closed name xs)) [
    | inl k ↦
        let (text, tail, r, t, o) = filled-eq-ok name nl _ _ (rw k at h) in
        rw (o, closed-IsRest name (skipped xs name k t)) refl
    | inr k ↦
        let (rest, r, o) = put-eq-ok (begin name nl) _ (rw k at h) in
        let later = keeps-block xs (rw k at b) r in rw o (ground arith)
  ]
  keeps-block (end name ∷ xs) b h =
      let (rest, r, o) = put-eq-ok (end name) _ h in rw o (keeps-block xs b r)
  keeps-block (other t ∷ xs) b h =
      let (rest, r, o) = put-eq-ok (other t) _ h in rw o (keeps-block xs b r)

  apply-filled :
      (text : Text) {out : Text}
      → apply_blocks rendered text ≡ ok out
      → (has_block text ≡ true) × (substitute rendered outside text ≡ ok out)
  unfolding apply_blocks
  apply-filled text h =
      let (found, s, k) = >>=-eq-ok (substitute rendered outside text) _ h in
      elim (Bool-cases (has_block text)) [
        | inl b ↦ (b, s ∙ (rw b at k))
        | inr b ↦ absurd (missing (rw b at k))
      ]
    where
      missing : {e : BlockError} {t : Text} → ◌≡◌ {A = Result BlockError Text} (err e) (ok t) → ⊥
      missing e = cc

  -- A document whose blocks have been filled is one that filling them leaves as it is.
  pub apply_blocks-again :
      (text : Text) {out : Text}
      → apply_blocks rendered text ≡ ok out
      → apply_blocks rendered out ≡ ok out
  unfolding apply_blocks
  apply_blocks-again text h =
      let (b, s) = apply-filled text h in rw (filled_again text s, keeps-block text b s) refl
