-- ===== src/Summaries/Counters/Peaks.antt =====
-- Which numbers of a text become the memory of a cgroup.
use cachelib_grpc_server.Common.{
  ℕ, String, ◌==◌, ◌≡◌, refl, ap, sym, ◌∙◌, Bool-cases, inl, inr, Option, none, some, List, [], ◌∷◌,
  ok, >>=-eq-ok, ok_injective,
}
use cachelib_grpc_server.Summaries.Counters.{
  Usage, int, nothing, set_default, with_number, with_usage, read_line, read_lines, cgroup,
}

-- The number that a line is, where it is nothing else.
abbrev pub alone : List String → Option ℕ
alone [] = none
alone (word ∷ []) = int word
alone (a ∷ b ∷ words) = none

abbrev either : Option ℕ → Option ℕ → Option ℕ
either none o = o
either (some n) o = some n

-- The first and the last number that stands alone in its line.
abbrev pub first_alone : List (List String) → Option ℕ
first_alone [] = none
first_alone (line ∷ lines) = either (alone line) (first_alone lines)

abbrev pub last_alone : List (List String) → Option ℕ
last_alone [] = none
last_alone (line ∷ lines) = either (last_alone lines) (alone line)

either-none : (a : Option ℕ) → either a none ≡ a
either-none none = refl
either-none (some n) = refl

kept-usage :
    (u : Usage) {v : Usage}
    → u ≡ v
    → (v.memory_current ≡ either u.memory_current none) × (v.memory_peak ≡ u.memory_peak)
kept-usage u same = (
  sym (ap (λ (w : Usage). w.memory_current) same) ∙ sym (either-none u.memory_current),
  sym (ap (λ (w : Usage). w.memory_peak) same),
)

memory-with_usage :
    (o : Option ℕ) (u : Usage) {v : Usage}
    → with_usage o u ≡ ok v
    → (v.memory_current ≡ either u.memory_current none) × (v.memory_peak ≡ u.memory_peak)
memory-with_usage none u h = cc
memory-with_usage (some n) u h = kept-usage (record u { usage_usec = some n }) (ok_injective h)

memory-with_number :
    (o : Option ℕ) (u : Usage)
    → ((with_number o u).memory_current ≡ either u.memory_current o)
      × ((with_number o u).memory_peak ≡ either o u.memory_peak)
memory-with_number none u = (sym (either-none u.memory_current), refl)
memory-with_number (some n) u = (default_either u.memory_current, refl)
  where
    default_either : (o : Option ℕ) → set_default o n ≡ either o (some n)
    default_either none = refl
    default_either (some m) = refl

memory-read_line :
    (line : List String) (u : Usage) {v : Usage}
    → read_line line u ≡ ok v
    → (v.memory_current ≡ either u.memory_current (alone line))
      × (v.memory_peak ≡ either (alone line) u.memory_peak)
memory-read_line [] u h = kept-usage u (ok_injective h)
memory-read_line (word ∷ []) u h =
    let (current, peak) = memory-with_number (int word) u in
    let same = ok_injective h in
    (
      sym (ap (λ (w : Usage). w.memory_current) same) ∙ current,
      sym (ap (λ (w : Usage). w.memory_peak) same) ∙ peak,
    )
memory-read_line (name ∷ value ∷ []) u h = elim (Bool-cases (name == "usage_usec")) [
  | inl e ↦ memory-with_usage (int value) u (rw e at h)
  | inr e ↦ kept-usage u (ok_injective (rw e at h))
]
memory-read_line (a ∷ b ∷ c ∷ words) u h = kept-usage u (ok_injective h)

either_assoc : (a b c : Option ℕ) → either (either a b) c ≡ either a (either b c)
either_assoc none b c = refl
either_assoc (some n) b c = refl

memory-read_lines :
    (lines : List (List String)) (u : Usage) {v : Usage}
    → read_lines lines u ≡ ok v
    → (v.memory_current ≡ either u.memory_current (first_alone lines))
      × (v.memory_peak ≡ either (last_alone lines) u.memory_peak)
unfolding read_lines
memory-read_lines [] u {v} h = kept-usage u (ok_injective h)
memory-read_lines (line ∷ lines) u h =
    let (next, one, h1) = >>=-eq-ok (read_line line u) _ h in
    let (current, peak) = memory-read_line line u one in
    let (current', peak') = memory-read_lines lines next h1 in
    (
      current'
          ∙ ap (λ o. either o (first_alone lines)) current
          ∙ either_assoc u.memory_current (alone line) (first_alone lines),
      peak'
          ∙ ap (λ o. either (last_alone lines) o) peak
          ∙ sym (either_assoc (last_alone lines) (alone line) u.memory_peak),
    )

-- Of a text that can be read, the current memory is the first number that stands alone in its line,
-- and the peak is the last one; there is neither where no number stands alone.
pub cgroup_memory :
    (lines : List (List String)) {u : Usage}
    → cgroup lines ≡ ok u
    → (u.memory_current ≡ first_alone lines) × (u.memory_peak ≡ last_alone lines)
cgroup_memory lines h =
    let (current, peak) = memory-read_lines lines nothing h in
    (current, peak ∙ either-none (last_alone lines))
