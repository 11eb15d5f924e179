-- ===== src/Published/Render/Claims.antt =====
-- What the evidence says of a report that is rendered.
use cachelib_grpc_server.Common.{
  subst, ℕ, String, ◌==◌, eq_iff, ◌≡◌, refl, ap, Bool, true, false, not, ◌&&◌, ◌||◌, Bool-cases,
  inl, inr, ◌↔◌, List, [], ◌∷◌, map, all_b, elem, is_empty, Result, ok, err, >>=-eq-ok,
  raise_if-eq-ok, Place, here, there, All, All-place, arith, and_intro,
}
use cachelib_grpc_server.Campaign.Spec.{Spec, Run, expected_runs}
use cachelib_grpc_server.Campaign.Validate.{validate_group}
use cachelib_grpc_server.Campaign.Validate.Accepted.{IsAccepted, validate_group-valid}
use cachelib_grpc_server.Published.Cells.{ReportError}
use cachelib_grpc_server.Published.Render.{
  Entry, Sources, Document, names_of, check_evidence, check_entries, validation, sections,
  comparisons, all_passed_of, render,
}

-- A file whose hash is the recorded one.
abbrev pub IsUnchanged : (String → String) → String × String → Type 0
IsUnchanged hash_of file = hash_of file.0 ≡ file.1

abbrev pub IsKept : (String → String) → String × Entry → Type 0
IsKept hash_of entry = All (IsUnchanged hash_of) (entry.1).evidence

check_evidence-IsUnchanged :
    (hash_of : String → String) (files : List (String × String))
    → check_evidence hash_of files ≡ ok tt
    → All (IsUnchanged hash_of) files
unfolding check_evidence
check_evidence-IsUnchanged hash_of [] h = tt
check_evidence-IsUnchanged hash_of ((name, expected) ∷ files) h =
    let (same, h1) = raise_if-eq-ok (not (hash_of name == expected)) _ h in
    (ground (arith, eq_iff (hash_of name) expected), check_evidence-IsUnchanged hash_of files h1)

check_entries-IsKept :
    (hash_of : String → String) (entries : List (String × Entry))
    → check_entries hash_of entries ≡ ok tt
    → All (IsKept hash_of) entries
unfolding check_entries
check_entries-IsKept hash_of [] h = tt
check_entries-IsKept hash_of ((name, entry) ∷ entries) h =
    let (u, files, h1) = >>=-eq-ok (check_evidence hash_of entry.evidence) _ h in
    (
      check_evidence-IsUnchanged hash_of entry.evidence files,
      check_entries-IsKept hash_of entries h1,
    )

elem-Place : (k : String) (xs : List String) → elem k xs ≡ true → Place k xs
elem-Place k [] h = cc
elem-Place k (x ∷ xs) h = elim (Bool-cases (x == k)) [
  | inl e ↦ let same : x ≡ k = ground (arith, eq_iff x k) in subst (λ y. Place y (x ∷ xs)) same here
  | inr e ↦ there (elem-Place k xs (ground arith))
]

names-Place :
    (names : List String) (groups : List Spec)
    → all_b (λ y. elem y names) (map (λ (g : Spec). g.name) groups) ≡ true
    → All (λ (g : Spec). Place g.name names) groups
names-Place names [] h = tt
names-Place names (g ∷ gs) h =
    (elem-Place g.name names (ground arith), names-Place names gs (ground arith))

and_left : (a b : Bool) → (a && b) ≡ true → a ≡ true
and_left a b h = ground arith

and_right : (a b : Bool) → (a && b) ≡ true → b ≡ true
and_right a b h = ground arith

abbrev pub IsValid : String × Entry → Type 0
IsValid entry = (entry.1).valid ≡ true

complete_parts :
    (a b c d : Bool)
    → (not a || (not (b && c) || not d)) ≡ false
    → (a ≡ true) × (b ≡ true) × (c ≡ true) × (d ≡ true)
complete_parts true true true true h = (refl, refl, refl, refl)
complete_parts true true true false h = cc
complete_parts true true false d h = cc
complete_parts true false c d h = cc
complete_parts false b c d h = cc

module _ (same_groups : List Spec → List Spec → Bool) (den : ℕ) (src : Sources) where
  -- What a rendered report rests on.
  pub record IsBacked (groups : List Spec) : Type 0 where
    pub unchanged : same_groups src.campaign.groups groups ≡ true
    pub finished : src.campaign.finished ≡ true
    pub entered : All (λ (g : Spec). Place g.name (names_of src.campaign.progress)) groups
    pub kept : All (IsKept src.hash_of) src.campaign.progress

  -- A report is rendered only from a finished campaign whose recorded definition compares equal to the
  -- present one, which has an entry for every group, and none of whose evidence files has changed
  -- since it was recorded.
  pub render-IsBacked :
      (groups : List Spec) {d : Document}
      → render same_groups den src groups ≡ ok d
      → IsBacked groups
  unfolding render
  render-IsBacked groups h =
      let (complete, h1) = raise_if-eq-ok _ _ h in
      let (u, files, h2) = >>=-eq-ok (check_entries src.hash_of src.campaign.progress) _ h1 in
      let (same, theirs, ours, ended) = complete_parts _ _ _ _ complete in
      record {
        unchanged = same;
        finished = ended;
        entered = names-Place (names_of src.campaign.progress) groups ours;
        kept = check_entries-IsKept src.hash_of src.campaign.progress files;
      }

  all_valid-All :
      (entries : List (String × Entry))
      → (all_b (λ (e : String × Entry). (e.1).valid) entries ≡ true) ↔ All IsValid entries
  all_valid-All [] = (λ h. tt, λ h. refl)
  all_valid-All ((name, entry) ∷ entries) =
      let (to, from) = all_valid-All entries in
      (λ h. (ground arith, to (ground arith)), λ h. and_intro h.0 (from h.1))

  -- Every expected run of a group is accepted.
  abbrev AllAccepted : Spec → Type 0
  AllAccepted g = (run : Run) → Place run (expected_runs g) → IsAccepted g run (src.runs g.name run)

  group-AllAccepted :
      (g : Spec) → (is_empty (validation same_groups den src g).problems ≡ true) ↔ AllAccepted g
  unfolding validate_group
  group-AllAccepted g = validate_group-valid g (src.runs g.name)

  all-AllAccepted :
      (groups : List Spec)
      → all_b (λ g. is_empty (validation same_groups den src g).problems) groups ≡ true
      → All AllAccepted groups
  all-AllAccepted [] h = tt
  all-AllAccepted (g ∷ gs) h =
      ((group-AllAccepted g).0 (ground arith), all-AllAccepted gs (ground arith))

  accepted-all :
      (groups : List Spec)
      → ((g : Spec) → Place g groups → AllAccepted g)
      → all_b (λ g. is_empty (validation same_groups den src g).problems) groups ≡ true
  accepted-all [] f = refl
  accepted-all (g ∷ gs) f =
      and_intro ((group-AllAccepted g).1 (f g here)) (accepted-all gs (λ k m. f k (there m)))

  -- A report says that all groups passed exactly when every entry of the campaign was recorded as
  -- valid and the runs that are there, validated again, are accepted: every expected run of every
  -- group.
  pub passed-IsAccepted :
      (groups : List Spec) {d : Document}
      → render same_groups den src groups ≡ ok d
      → (d.passed ≡ true) ↔ (
          All IsValid src.campaign.progress
          × ((g : Spec) (run : Run)
              → Place g groups
              → Place run (expected_runs g)
              → IsAccepted g run (src.runs g.name run)))
  unfolding render all_passed_of
  passed-IsAccepted groups {d} h =
      let (complete, h1) = raise_if-eq-ok _ _ h in
      let (u, files, h2) = >>=-eq-ok (check_entries src.hash_of src.campaign.progress) _ h1 in
      let (parts, p, h3) = >>=-eq-ok (sections same_groups den src groups) _ h2 in
      let (compared, c, h4) = >>=-eq-ok (comparisons same_groups den src groups) _ h3 in
      let passed : all_passed_of same_groups den src groups ≡ d.passed = ap passed_of h4 in
      let (valid_to, valid_from) = all_valid-All src.campaign.progress in
      rw (← passed) (
        λ h. (
          valid_to (and_left _ _ h),
          λ g run m. All-place AllAccepted groups (all-AllAccepted groups (and_right _ _ h)) m run,
        ),
        λ h. and_intro (valid_from h.0) (accepted-all groups (λ g m run. h.1 g run m)),
      )
    where
      passed_of : Result ReportError Document → Bool
      passed_of (ok d) = d.passed
      passed_of (err e) = false
