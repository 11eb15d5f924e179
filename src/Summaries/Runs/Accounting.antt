-- ===== src/Summaries/Runs/Accounting.antt =====
-- Where the directories of the runs are in a summary.
use cachelib_grpc_server.Common.{
  subst, ℕ, suc, ◌+◌, String, ◌≡◌, refl, ap, sym, Bool, Bool-cases, inl, inr, ◌&&◌, Option, none,
  some, List, [], ◌∷◌, ◌++◌, map, length, length-append, is_some, arith, if◌then◌else◌, Result, ok,
  >>=-eq-ok, ok_injective,
}
use cachelib_grpc_server.Campaign.Spec.{sum}
use cachelib_grpc_server.Summaries.Values.{Row}
use cachelib_grpc_server.Summaries.Runs.{
  Found, Run, Split, missing, measured, read_found, read_all, Group, is_of, append_row, group_rows,
  insert_group, sort_groups, Entry, entry_of, summarize,
}

-- The runs of all groups, and their errors.
abbrev sizes : List Group → ℕ
sizes gs = sum (map (λ (g : Group). length g.runs) gs)

abbrev pub errors_in : List Run → ℕ
errors_in rs = sum (map (λ (r : Run). r.errors) rs)

abbrev all_errors : List Group → ℕ
all_errors gs = sum (map (λ (g : Group). errors_in g.runs) gs)

errors-append : (xs ys : List Run) → errors_in (xs ++ ys) ≡ errors_in xs + errors_in ys
errors-append [] ys = omega arith
errors-append (x ∷ xs) ys = let e = errors-append xs ys in omega arith

sizes-append_row :
    (r : Run) (gs : List Group)
    → (sizes (append_row r gs) ≡ sizes gs + 1)
      × (all_errors (append_row r gs) ≡ all_errors gs + r.errors)
sizes-append_row r [] = (omega arith, omega arith)
sizes-append_row r (g ∷ gs) =
    let (n, e) = sizes-append_row r gs in
    let l = length-append g.runs (r ∷ []) in
    let s = errors-append g.runs (r ∷ []) in
    elim (Bool-cases (is_of r g)) [
      | inl t ↦ rw t (omega arith, omega arith)
      | inr t ↦ rw t (omega arith, omega arith)
    ]

sizes-group_rows :
    (gs : List Group) (rs : List Run)
    → (sizes (group_rows gs rs) ≡ sizes gs + length rs)
      × (all_errors (group_rows gs rs) ≡ all_errors gs + errors_in rs)
sizes-group_rows gs [] = (omega arith, omega arith)
sizes-group_rows gs (r ∷ rs) =
    let (n, e) = sizes-append_row r gs in
    let (m, f) = sizes-group_rows (append_row r gs) rs in (omega arith, omega arith)

sizes-insert_group :
    (before : Group → Group → Bool) (g : Group) (gs : List Group)
    → (sizes (insert_group before g gs) ≡ length g.runs + sizes gs)
      × (all_errors (insert_group before g gs) ≡ errors_in g.runs + all_errors gs)
sizes-insert_group before g [] = (refl, refl)
sizes-insert_group before g (h ∷ hs) =
    let (n, e) = sizes-insert_group before g hs in
    elim (Bool-cases (before g h)) [
      | inl t ↦ rw t (refl, refl)
      | inr t ↦ rw t (omega arith, omega arith)
    ]

sizes-sort_groups :
    (before : Group → Group → Bool) (gs : List Group)
    → (sizes (sort_groups before gs) ≡ sizes gs)
      × (all_errors (sort_groups before gs) ≡ all_errors gs)
sizes-sort_groups before [] = (refl, refl)
sizes-sort_groups before (g ∷ gs) =
    let (n, e) = sizes-sort_groups before gs in
    let (m, f) = sizes-insert_group before g (sort_groups before gs) in (omega arith, omega arith)

sums-entry_of :
    (gs : List Group)
    → (sum (map (λ (e : Entry). e.n) (map entry_of gs)) ≡ sizes gs)
      × (sum (map (λ (e : Entry). e.errors) (map entry_of gs)) ≡ all_errors gs)
sums-entry_of [] = (refl, refl)
sums-entry_of (g ∷ gs) = let (n, e) = sums-entry_of gs in (omega arith, omega arith)

-- How many directories have what is asked for.
abbrev pub how_many : {D : Type 0} → (Found D → Bool) → List (Found D) → ℕ
how_many p [] = 0
how_many p (f ∷ fs) = let rest = how_many p fs in if p f then suc rest else rest

module _ {D : Type 0} (errors_of : D → ℕ) (columns_of : String → D → Result String Row) where
  counts-missing :
      (f : Found D) (o : Option String) (s : Split)
      → (length (missing errors_of columns_of f o s).rows ≡ length s.rows)
        × (length (missing errors_of columns_of f o s).failures ≡ length s.failures + 1)
  counts-missing f none s = (refl, omega arith)
  counts-missing f (some e) s = (refl, omega arith)

  counts-measured :
      (f : Found D) (d : D) (columns : Row) (o : Option String) (s : Split)
      → (length (measured errors_of columns_of f d columns o s).rows ≡ length s.rows + 1)
        × (length (measured errors_of columns_of f d columns o s).failures
            ≡ length s.failures + (if is_some o then 1 else 0))
  counts-measured f d columns none s = (omega arith, omega arith)
  counts-measured f d columns (some e) s = (omega arith, omega arith)

  -- What one directory adds to the rows and to the failures.
  record Added (f : Found D) (result : Option D) (s t : Split) : Type 0 where
    row : length t.rows ≡ length s.rows + (if is_some result then 1 else 0)
    failure :
        length t.failures
        ≡ length s.failures + (if is_some result then (if is_some f.error then 1 else 0) else 1)

  Added-read_found :
      (f : Found D) (result : Option D) (rest : Result String Split) {t : Split}
      → read_found errors_of columns_of f result rest ≡ ok t
      → (s : Split) × (rest ≡ ok s) × Added f result s t
  Added-read_found f none rest h =
      let (s, r, h1) = >>=-eq-ok rest _ h in
      let (rows, failures) = counts-missing f f.error s in
      (
        s,
        r,
        subst (Added f none s) (ok_injective h1) (record { row = omega arith; failure = failures }),
      )
  Added-read_found f (some d) rest h =
      let (columns, c, h1) = >>=-eq-ok (columns_of f.engine d) _ h in
      let (s, r, h2) = >>=-eq-ok rest _ h1 in
      let (rows, failures) = counts-measured f d columns f.error s in
      (
        s,
        r,
        subst (Added f (some d) s) (ok_injective h2) (record { row = rows; failure = failures }),
      )

  counts-read_all :
      (fs : List (Found D)) {s : Split}
      → read_all errors_of columns_of fs ≡ ok s
      → (length s.rows ≡ how_many (λ f. is_some f.result) fs)
        × (length s.rows + length s.failures
            ≡ length fs + how_many (λ f. is_some f.result && is_some f.error) fs)
  unfolding read_all
  counts-read_all [] h =
      let same = ok_injective h in
      (
        ap (λ (t : Split). length t.rows) (sym same),
        ap (λ (t : Split). length t.rows + length t.failures) (sym same),
      )
  counts-read_all (f ∷ fs) h =
      let (s, r, a) = Added-read_found f f.result (read_all errors_of columns_of fs) h in
      let (rows, all) = counts-read_all fs r in
      let row = a.row in let failure = a.failure in (ground arith, ground arith)

  -- A summary accounts for every directory: the runs of its groups are the directories with a result,
  -- each in one group, and with the failures they are all directories, where one with a result and an
  -- error text counts as both. The errors of the groups are those of the results.
  pub summarize-accounts :
      (before : Group → Group → Bool) (fs : List (Found D)) {s : Split}
      → read_all errors_of columns_of fs ≡ ok s
      → let entries = summarize before s.rows in
        let runs = sum (map (λ (e : Entry). e.n) entries) in
        (runs ≡ how_many (λ f. is_some f.result) fs)
        × (runs + length s.failures
            ≡ length fs + how_many (λ f. is_some f.result && is_some f.error) fs)
        × (sum (map (λ (e : Entry). e.errors) entries) ≡ errors_in s.rows)
  unfolding summarize
  summarize-accounts before fs {s} h =
      let (rows, all) = counts-read_all fs h in
      let (n, e) = sums-entry_of (sort_groups before (group_rows [] s.rows)) in
      let (n1, e1) = sizes-sort_groups before (group_rows [] s.rows) in
      let (n2, e2) = sizes-group_rows [] s.rows in (omega arith, omega arith, omega arith)
