-- ===== src/Matrix/Jobs/Options.antt =====
-- bench/investigation/run_matrix.py: what the options of the matrix ask for, against its tests.
use cachelib_grpc_server.Common.{
  ℕ, zero, suc, ◌≤◌, ◌<◌, String, ◌==◌, eq_iff, ◌≡◌, refl, sym, ◌∙◌, ap, not, ◌&&◌, ◌||◌, Bool,
  true, false, ◌↔◌, ◌⊎◌, inl, inr, Option, none, some, ltb, elem, starts_with, arith, Bool-cases,
}
use cachelib_grpc_server.Matrix.Runs.{Case}
use cachelib_grpc_server.Matrix.Jobs.{is_other, repeated, is_skipped, repetitions, ram_of}

-- A workload is asked for: by its name, or where no name is given.
abbrev pub IsAsked : Option String → Case → Type 0
IsAsked none c = Unit
IsAsked (some only) c = (only ≡ "") ⊎ (c.label ≡ only)

-- An engine can run a workload: pipelines need gRPC, and the file tier of Memcached needs objects of
-- 2048 bytes at least.
abbrev pub CanRun : String → Case → Type 0
CanRun engine c =
    ((starts_with "pipeline_" c.label ≡ false) ⊎ (starts_with "grpc" engine ≡ true))
    × ((¬ (engine ≡ "memcached_extstore")) ⊎ (2048 ≤ c.size))

-- The workloads of the full matrix that are measured twice.
abbrev pub IsTwice : String → Type 0
IsTwice label =
    (label ≡ "hit_1k_c1")
    ⊎ ((label ≡ "origin_skew_64k")
        ⊎ ((label ≡ "origin_uniform_64k") ⊎ (label ≡ "steady_uniform_64k")))

-- A repetition of a workload, counted from 0.
abbrev pub IsRepetition : String → Case → ℕ → Type 0
IsRepetition level c rep = (rep ≡ 0) ⊎ ((rep ≡ 1) × (level ≡ "matrix") × IsTwice c.label)

-- The memory of an engine: its own, or that of all.
abbrev pub IsRam : Option ℕ → ℕ → ℕ → Type 0
IsRam own ram_mb ram = (own ≡ some ram) ⊎ ((own ≡ none) × (ram ≡ ram_mb))

and-false : (a b : Bool) → a && b ≡ false → (a ≡ false) ⊎ (b ≡ false)
and-false true b h = inr h
and-false false b h = inl refl

and-from : (a b : Bool) → (a ≡ false) ⊎ (b ≡ false) → a && b ≡ false
and-from true b (inl h) = cc
and-from true b (inr h) = h
and-from false b h = refl

and-true : (a b : Bool) → a && b ≡ true → (a ≡ true) × (b ≡ true)
and-true true b h = (refl, h)
and-true false b h = cc

or-false : (a b : Bool) → a || b ≡ false → (a ≡ false) × (b ≡ false)
or-false true b h = cc
or-false false b h = (refl, h)

not-false : (a : Bool) → not a ≡ false → a ≡ true
not-false true h = refl
not-false false h = cc

eq-true : (a b : String) → (a == b) ≡ true → a ≡ b
eq-true a b h = (eq_iff a b).0 h

true≢false : true ≡ false → ⊥
true≢false h = cc

eq-false : (a b : String) → (a == b) ≡ false → ¬ (a ≡ b)
eq-false a b h e = true≢false (sym ((eq_iff a b).1 e) ∙ h)

is_other-IsAsked :
    (only : Option String) (c : Case) → (is_other only c.label ≡ false) ↔ IsAsked only c
is_other-IsAsked none c = (λ h. tt, λ h. refl)
is_other-IsAsked (some only) c = (to, from)
  where
    to : is_other (some only) c.label ≡ false → IsAsked (some only) c
    to h = elim (and-false (not (only == "")) (not (c.label == only)) h) [
      | inl e ↦ inl (eq-true only "" (not-false (only == "") e))
      | inr e ↦ inr (eq-true c.label only (not-false (c.label == only) e))
    ]

    from : IsAsked (some only) c → is_other (some only) c.label ≡ false
    from (inl e) =
        and-from (not (only == "")) (not (c.label == only)) (inl (rw ((eq_iff only "").1 e) refl))
    from (inr e) =
        and-from (not (only == "")) (not (c.label == only))
          (inr (rw ((eq_iff c.label only).1 e) refl))

can_run-size :
    (engine : String) (size : ℕ)
    → ((engine == "memcached_extstore") && ltb size 2048 ≡ false)
      ↔ ((¬ (engine ≡ "memcached_extstore")) ⊎ (2048 ≤ size))
can_run-size engine size = (to, from)
  where
    to :
        (engine == "memcached_extstore") && ltb size 2048 ≡ false
        → (¬ (engine ≡ "memcached_extstore")) ⊎ (2048 ≤ size)
    to h = elim (and-false (engine == "memcached_extstore") (ltb size 2048) h) [
      | inl e ↦ inl (eq-false engine "memcached_extstore" e)
      | inr e ↦ inr (ground arith)
    ]

    from :
        (¬ (engine ≡ "memcached_extstore")) ⊎ (2048 ≤ size)
        → (engine == "memcached_extstore") && ltb size 2048 ≡ false
    from (inl n) = elim (Bool-cases (engine == "memcached_extstore")) [
      | inl e ↦ absurd (n (eq-true engine "memcached_extstore" e))
      | inr e ↦ and-from _ _ (inl e)
    ]
    from (inr l) = and-from (engine == "memcached_extstore") (ltb size 2048) (inr (ground arith))

can_run-pipeline : (a b : Bool) → (a && not b ≡ false) ↔ ((a ≡ false) ⊎ (b ≡ true))
can_run-pipeline true true = (λ h. inr refl, λ h. refl)
can_run-pipeline true false = (λ h. cc, λ h. elim h [ inl e ↦ e | inr e ↦ sym e ])
can_run-pipeline false b = (λ h. inl refl, λ h. refl)

pub is_skipped-CanRun :
    (only : Option String) (engine : String) (c : Case)
    → (is_skipped only engine c ≡ false) ↔ (IsAsked only c × CanRun engine c)
unfolding is_skipped
is_skipped-CanRun only engine c = (to, from)
  where
    to : is_skipped only engine c ≡ false → IsAsked only c × CanRun engine c
    to h =
        let (asked, rest) = or-false (is_other only c.label) _ h in
        let (pipe, size) =
          or-false (starts_with "pipeline_" c.label && not (starts_with "grpc" engine)) _ rest in
        (
          (is_other-IsAsked only c).0 asked,
          (
            (can_run-pipeline (starts_with "pipeline_" c.label) (starts_with "grpc" engine)).0 pipe,
            (can_run-size engine c.size).0 size,
          ),
        )

    from : IsAsked only c × CanRun engine c → is_skipped only engine c ≡ false
    from (a, (p, z)) =
        let asked = (is_other-IsAsked only c).1 a in
        let pipe =
          (can_run-pipeline (starts_with "pipeline_" c.label) (starts_with "grpc" engine)).1 p in
        let size = (can_run-size engine c.size).1 z in rw (asked, pipe, size) refl

elem-IsTwice : (label : String) → (elem label repeated ≡ true) ↔ IsTwice label
elem-IsTwice label = (to, from)
  where
    to : elem label repeated ≡ true → IsTwice label
    to h = ground (
      arith,
      eq_iff "hit_1k_c1" label,
      eq_iff "origin_skew_64k" label,
      eq_iff "origin_uniform_64k" label,
      eq_iff "steady_uniform_64k" label,
    )

    from : IsTwice label → elem label repeated ≡ true
    from h = ground (
      arith,
      eq_iff "hit_1k_c1" label,
      eq_iff "origin_skew_64k" label,
      eq_iff "origin_uniform_64k" label,
      eq_iff "steady_uniform_64k" label,
    )

pub repetitions-IsRepetition :
    (level : String) (c : Case) (rep : ℕ) → (rep < repetitions level c) ↔ IsRepetition level c rep
repetitions-IsRepetition level c rep = (to, from)
  where
    again :
        (k : ℕ)
        → ((level == "matrix") ≡ true) × (elem c.label repeated ≡ true)
        → k < 2
        → IsRepetition level c k
    again zero e l = inl refl
    again (suc zero) (m, t) l = inr (refl, eq-true level "matrix" m, (elem-IsTwice c.label).0 t)
    again (suc (suc k)) e l = absurd (omega arith)

    to : rep < repetitions level c → IsRepetition level c rep
    to l = elim (Bool-cases ((level == "matrix") && elem c.label repeated)) [
      | inl e ↦ again rep (and-true (level == "matrix") _ e) (rw e at l)
      | inr e ↦ inl (ground arith)
    ]

    from : IsRepetition level c rep → rep < repetitions level c
    from (inl z) = ground arith
    from (inr (one, m, twice)) =
        rw ((eq_iff level "matrix").1 m, (elem-IsTwice c.label).1 twice) (omega arith)

pub ram_of-IsRam :
    (own : Option ℕ) (ram_mb ram : ℕ) → (ram_of ram_mb own ≡ ram) ↔ IsRam own ram_mb ram
ram_of-IsRam none ram_mb ram =
    (λ h. inr (refl, sym h), λ h. elim h [ inl e ↦ cc | inr e ↦ sym e.1 ])
ram_of-IsRam (some n) ram_mb ram =
    (λ h. inl (ap (λ k. some k) h), λ h. elim h [ inl e ↦ some_injective e | inr e ↦ cc ])
  where
    some_injective : ◌≡◌ {A = Option ℕ} (some n) (some ram) → n ≡ ram
    some_injective e = cc
