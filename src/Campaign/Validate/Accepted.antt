-- ===== src/Campaign/Validate/Accepted.antt =====
-- What `validate_group` accepts: an independent description of a run that is sound evidence.
use cachelib_grpc_server.Common.{
  String, eq_iff, ◌≡◌, refl, ◌⊎◌, inl, inr, ◌↔◌, Bool, true, false, not, ◌&&◌, Option, none, some,
  List, [], ◌∷◌, ◌++◌, map, is_empty, elem, ap, arith, Place, here, there, Bool-cases,
}
use cachelib_grpc_server.Campaign.Spec.{Kind, kv, http, Spec, Run, expected_runs}
use cachelib_grpc_server.Campaign.Evidence.{
  is_nonzero, is_positive, equals, is_below_99_percent, Doc, keys, required, absent, unreadable,
  parsed, ResultFile, Probe, RunFiles, Issue,
}
use cachelib_grpc_server.Campaign.Validate.{
  value, report_if, absent_from, missing, configured_seconds, is_seconds, drop_only_exit,
  field_problems, probe_passed, probe_problems, is_excused, error_problems, doc_problems,
  validate_doc, validate_result, validate_run, Findings, collect, validate_group,
}

abbrev pub IsProbed : Kind → String → Option Probe → Type 0
IsProbed kv engine none = ⊥
IsProbed kv engine (some p) = probe_passed engine p ≡ true
IsProbed http engine probe = Unit

-- The client ended well, or told of dropped arrivals and of nothing else.
abbrev pub EndsWell : Kind → Doc → Type 0
EndsWell kind d =
    (is_nonzero (value d.client_exit_code) ≡ false)
    ⊎ ((kind ≡ kv)
        × (equals (value d.client_exit_code) 3 ≡ true)
        × (is_positive (value d.dropped_arrivals) ≡ true))

pub record IsSound (spec : Spec) (engine : String) (files : RunFiles) (d : Doc) : Type 0 where
  pub complete : (k : String) → elem k (required spec.kind) ≡ true → elem k (keys d) ≡ true
  pub sampled : is_positive (value d.latency_samples) ≡ true
  pub configured : is_seconds (configured_seconds spec.kind d) spec.seconds ≡ true
  pub error_free : is_nonzero (value d.errors) ≡ false
  pub warmed : is_nonzero (value d.warmup_errors) ≡ false
  pub ended : EndsWell spec.kind d
  pub full_time : is_below_99_percent (value d.elapsed_s) spec.seconds ≡ false
  pub probed : IsProbed spec.kind engine files.correctness
  pub unmarked : (files.error_txt ≡ none) ⊎ (is_nonzero (value d.dropped_arrivals) ≡ true)

abbrev pub IsAccepted : Spec → Run → RunFiles → Type 0
IsAccepted spec run files = (d : Doc) × (files.result ≡ parsed d) × IsSound spec run.engine files d

pub is_empty-append {ℓ} :
    {A : Type ℓ} (xs ys : List A) → is_empty (xs ++ ys) ≡ (is_empty xs && is_empty ys)
is_empty-append [] ys = refl
is_empty-append (x ∷ xs) ys = refl

pub is_empty-report_if : (b : Bool) (i : Issue) → is_empty (report_if b i) ≡ not b
is_empty-report_if true i = refl
is_empty-report_if false i = refl

not-not : (b : Bool) → not (not b) ≡ b
not-not true = refl
not-not false = refl

pub absent_from-all :
    (ks present : List String)
    → is_empty (absent_from ks present) ≡ true
    → (k : String) → elem k ks ≡ true
    → elem k present ≡ true
absent_from-all [] present h k m = cc
absent_from-all (j ∷ ks) present h k m = ground (arith, eq_iff j k, absent_from-all ks present _ k)

all-absent_from :
    (ks present : List String)
    → ((k : String) → elem k ks ≡ true → elem k present ≡ true)
    → is_empty (absent_from ks present) ≡ true
all-absent_from [] present h = refl
all-absent_from (j ∷ ks) present h =
    ground (arith, eq_iff j j, h j, all-absent_from ks present (λ k m. h k (ground arith)))

probe_problems-clean :
    (kind : Kind) (engine : String) (probe : Option Probe)
    → (is_empty (probe_problems kind engine probe) ≡ true) ↔ IsProbed kind engine probe
unfolding probe_problems
probe_problems-clean kv engine none = (λ h. absurd (cc), λ h. absurd h)
probe_problems-clean kv engine (some p) = (λ h. ground arith, λ h. ground arith)
probe_problems-clean http engine probe = (λ h. tt, λ h. refl)

module _ (spec : Spec) (d : Doc) where
  ends_well : is_empty (field_problems spec d) ≡ true → EndsWell spec.kind d
  unfolding field_problems drop_only_exit
  ends_well h = elim (Bool-cases (is_nonzero (value d.client_exit_code))) [
    | inl e ↦ inr (ground arith, ground arith, ground arith)
    | inr e ↦ inl e
  ]

  field_problems-clean : (is_empty (field_problems spec d) ≡ true) ↔ (
      (is_nonzero (value d.errors) ≡ false)
      × (is_nonzero (value d.warmup_errors) ≡ false)
      × EndsWell spec.kind d)
  unfolding field_problems drop_only_exit
  field_problems-clean = (λ h. (ground arith, ground arith, ends_well h), λ h. ground arith)

  error_problems-clean :
      (text : Option String)
      → is_nonzero (value d.errors) ≡ false
      → EndsWell spec.kind d
      → (is_empty (error_problems spec d text) ≡ true)
        ↔ ((text ≡ none) ⊎ (is_nonzero (value d.dropped_arrivals) ≡ true))
  unfolding error_problems is_excused drop_only_exit
  error_problems-clean none e w = (λ h. inl refl, λ h. refl)
  error_problems-clean (some t) e w = (λ h. inr (ground arith), λ h. ground arith)

module _ (spec : Spec) (run : Run) (files : RunFiles) (d : Doc) where
  abbrev Clean : Type 0
  Clean =
      (is_positive (value d.latency_samples) ≡ true)
      × (is_seconds (configured_seconds spec.kind d) spec.seconds ≡ true)
      × (is_empty (field_problems spec d) ≡ true)
      × (is_below_99_percent (value d.elapsed_s) spec.seconds ≡ false)
      × (is_empty (probe_problems spec.kind run.engine files.correctness) ≡ true)
      × (is_empty (error_problems spec d files.error_txt) ≡ true)

  doc_problems-parts : is_empty (doc_problems spec run.engine files d) ≡ (
      is_positive (value d.latency_samples)
      && (is_seconds (configured_seconds spec.kind d) spec.seconds
          && (is_empty (field_problems spec d)
              && (not (is_below_99_percent (value d.elapsed_s) spec.seconds)
                  && (is_empty (probe_problems spec.kind run.engine files.correctness)
                      && is_empty (error_problems spec d files.error_txt))))))
  unfolding doc_problems
  doc_problems-parts = simp (is_empty-append, is_empty-report_if, not-not)

  doc_problems-clean : (is_empty (doc_problems spec run.engine files d) ≡ true) ↔ Clean
  doc_problems-clean = rw doc_problems-parts (λ h. ground arith, λ h. ground arith)

  validate_doc-parts :
      (ks : List String)
      → is_empty (validate_doc spec run files d ks).problems
        ≡ (is_empty ks && is_empty (doc_problems spec run.engine files d))
  unfolding validate_doc
  validate_doc-parts [] = refl
  validate_doc-parts (k ∷ ks) = refl

  IsSound-clean :
      is_empty (missing spec.kind d) ≡ true
      → is_empty (doc_problems spec run.engine files d) ≡ true
      → IsSound spec run.engine files d
  unfolding missing
  IsSound-clean m h =
      let (sampled, configured, fields, full_time, probe, text) = doc_problems-clean.0 h in
      let (errors, warmed, ended) = (field_problems-clean spec d).0 fields in
      record {
        complete = absent_from-all (required spec.kind) (keys d) m;
        sampled = sampled;
        configured = configured;
        error_free = errors;
        warmed = warmed;
        ended = ended;
        full_time = full_time;
        probed = (probe_problems-clean spec.kind run.engine files.correctness).0 probe;
        unmarked = (error_problems-clean spec d files.error_txt errors ended).0 text;
      }

  pub clean-IsSound :
      IsSound spec run.engine files d
      → (is_empty (missing spec.kind d) ≡ true)
        × (is_empty (doc_problems spec run.engine files d) ≡ true)
  unfolding missing
  clean-IsSound s = (
    all-absent_from (required spec.kind) (keys d) s.complete,
    doc_problems-clean.1 (
      s.sampled,
      s.configured,
      (field_problems-clean spec d).1 (s.error_free, s.warmed, s.ended),
      s.full_time,
      (probe_problems-clean spec.kind run.engine files.correctness).1 s.probed,
      (error_problems-clean spec d files.error_txt s.error_free s.ended).1 s.unmarked,
    ),
  )

  -- A result that could be read has no problem exactly when it is sound.
  validate_doc-IsSound :
      (is_empty (validate_doc spec run files d (missing spec.kind d)).problems ≡ true)
      ↔ IsSound spec run.engine files d
  validate_doc-IsSound = rw (validate_doc-parts (missing spec.kind d)) (
    λ h. IsSound-clean (ground arith) (ground arith),
    λ s. let (m, c) = clean-IsSound s in ground arith,
  )

module _ (spec : Spec) (run : Run) (files : RunFiles) where
  pub validate_run-parsed :
      (d : Doc)
      → files.result ≡ parsed d
      → validate_run spec run files ≡ validate_doc spec run files d (missing spec.kind d)
  unfolding validate_run
  validate_run-parsed d e = ap (validate_result spec run files) e

  IsAccepted-of_result :
      (r : ResultFile)
      → files.result ≡ r
      → is_empty (validate_run spec run files).problems ≡ true
      → IsAccepted spec run files
  unfolding validate_run
  IsAccepted-of_result absent e h = ground arith
  IsAccepted-of_result (unreadable t) e h = ground arith
  IsAccepted-of_result (parsed d) e h =
      (d, e, (validate_doc-IsSound spec run files d).0 (rw (validate_run-parsed d e) at h))

  -- A run has no problem exactly when it is accepted.
  pub validate_run-IsAccepted :
      (is_empty (validate_run spec run files).problems ≡ true) ↔ IsAccepted spec run files
  validate_run-IsAccepted = (
    IsAccepted-of_result files.result refl,
    λ (d, e, s). rw (validate_run-parsed d e) ((validate_doc-IsSound spec run files d).1 s),
  )

is_empty-map {ℓ κ} :
    {A : Type ℓ} {B : Type κ} (f : A → B) (xs : List A) → is_empty (map f xs) ≡ is_empty xs
is_empty-map f [] = refl
is_empty-map f (x ∷ xs) = refl

module _ (part : Findings → List Issue) (spec : Spec) (dir : Run → RunFiles) where
  collect-cons :
      (run : Run) (runs : List Run)
      → is_empty (collect part spec dir (run ∷ runs)) ≡ (
          is_empty (part (validate_run spec run (dir run)))
          && is_empty (collect part spec dir runs))
  unfolding collect
  collect-cons run runs = simp (is_empty-append, is_empty-map)

  -- No run is left out: the collected findings are empty exactly when every run's are.
  pub collect-all :
      (runs : List Run)
      → is_empty (collect part spec dir runs) ≡ true
      → {run : Run} → Place run runs
      → is_empty (part (validate_run spec run (dir run))) ≡ true
  collect-all [] h m = elim m [ ]
  collect-all (run ∷ runs) h here = ground (arith, collect-cons run runs)
  collect-all (run ∷ runs) h (there m) = collect-all runs (ground (arith, collect-cons run runs)) m

  pub all-collect :
      (runs : List Run)
      → ((run : Run) → Place run runs → is_empty (part (validate_run spec run (dir run))) ≡ true)
      → is_empty (collect part spec dir runs) ≡ true
  unfolding collect
  all-collect [] h = refl
  all-collect (run ∷ runs) h =
      rw (collect-cons run runs) (
        let first = h run here in
        let rest = all-collect runs (λ r m. h r (there m)) in ground arith)

-- The report of a group says `valid` exactly when every expected run, and not only those that left
-- a result, is accepted: it has a readable result with all required fields, latency samples, the
-- configured duration, no error, a good exit status, the full measuring time and a passed probe,
-- and no error text that dropped arrivals do not excuse.
pub validate_group-valid :
    (spec : Spec) (dir : Run → RunFiles)
    → ((validate_group spec dir).valid ≡ true)
      ↔ ((run : Run) → Place run (expected_runs spec) → IsAccepted spec run (dir run))
unfolding validate_group
validate_group-valid spec dir = (
  λ h run m.
      (validate_run-IsAccepted spec run (dir run)).0
        (collect-all (λ f. f.problems) spec dir (expected_runs spec) h m),
  λ h.
      all-collect (λ f. f.problems) spec dir (expected_runs spec)
        (λ run m. (validate_run-IsAccepted spec run (dir run)).1 (h run m)),
)
