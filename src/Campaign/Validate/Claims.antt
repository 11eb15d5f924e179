-- ===== src/Campaign/Validate/Claims.antt =====
-- When the report of a group qualifies it for a claim.
use cachelib_grpc_server.Common.{
  String, ◌==◌, ◌≡◌, refl, ◌↔◌, true, false, List, [], ◌∷◌, is_empty, elem, arith, Place, and_intro,
  not-and, not_and_not,
}
use cachelib_grpc_server.Campaign.Spec.{Kind, kv, http, Spec, Run, expected_runs}
use cachelib_grpc_server.Campaign.Evidence.{is_nonzero, Doc, parsed, RunFiles}
use cachelib_grpc_server.Campaign.Validate.{
  value, missing, is_unstable, full_hit_groups, drops_are_expected, limited_by, limitations,
  validate_doc, validate_run, validate_group,
}
use cachelib_grpc_server.Campaign.Validate.Accepted.{
  IsSound, validate_run-IsAccepted, collect-all, all-collect, is_empty-append, is_empty-report_if,
  validate_run-parsed, clean-IsSound,
}

-- Nothing in a KV run limits a claim: no drops that the group does not look for, a stable warmup
-- wherever a headline rests on it, and no origin request where every read was to hit.
pub record IsUnlimitedKv (spec : Spec) (case : String) (d : Doc) : Type 0 where
  pub undropped : is_nonzero (value d.dropped_arrivals) ≡ true → drops_are_expected spec ≡ true
  pub stable : spec.headline ≡ true → is_unstable d case ≡ false
  pub all_hits : elem spec.name full_hit_groups ≡ true → is_nonzero (value d.origins) ≡ false

abbrev pub IsUnlimited : Kind → Spec → String → Doc → Type 0
IsUnlimited kv spec case d = IsUnlimitedKv spec case d
IsUnlimited http spec case d =
    (spec.name == "http") ≡ true → is_nonzero (value d.origin_requests_delta) ≡ false

module _ (spec : Spec) (run : Run) (d : Doc) where
  limited_by-clean :
      (kind : Kind)
      → (is_empty (limited_by kind spec run d) ≡ true) ↔ IsUnlimited kind spec run.case d
  unfolding limited_by
  limited_by-clean kv =
      simp (is_empty-append, is_empty-report_if)
        (
          λ h. record {
            undropped = λ x. ground arith;
            stable = λ x. ground arith;
            all_hits = λ x. ground arith;
          },
          λ u.
              and_intro
                (not_and_not (is_nonzero (value d.dropped_arrivals)) (drops_are_expected spec)
                  u.undropped)
                (and_intro
                  (not-and (is_unstable d run.case) spec.headline (λ x. ground (arith, u.stable)))
                  (not-and (elem spec.name full_hit_groups) (is_nonzero (value d.origins))
                    u.all_hits)),
        )
  limited_by-clean http = simp is_empty-report_if (
    λ h x. ground arith,
    λ u. not-and (spec.name == "http") (is_nonzero (value d.origin_requests_delta)) u,
  )

-- Of accepted evidence, the run limits no claim.
abbrev pub Qualifies : Spec → Run → RunFiles → Type 0
Qualifies spec run files =
    (d : Doc) × (files.result ≡ parsed d)
    × IsSound spec run.engine files d
    × IsUnlimited spec.kind spec run.case d

module _ (spec : Spec) (run : Run) (files : RunFiles) where
  limited-validate_doc :
      (d : Doc) (ks : List String)
      → is_empty ks ≡ true
      → (validate_doc spec run files d ks).limited ≡ limitations spec run d
  unfolding validate_doc
  limited-validate_doc d [] h = refl
  limited-validate_doc d (k ∷ ks) h = cc

  limited-validate_run :
      (d : Doc)
      → files.result ≡ parsed d
      → IsSound spec run.engine files d
      → (validate_run spec run files).limited ≡ limitations spec run d
  limited-validate_run d e s =
      rw (validate_run-parsed spec run files d e)
        (limited-validate_doc d (missing spec.kind d) (clean-IsSound spec run files d s).0)

  validate_run-Qualifies :
      ((is_empty (validate_run spec run files).problems ≡ true)
        × (is_empty (validate_run spec run files).limited ≡ true))
      ↔ Qualifies spec run files
  unfolding limitations
  validate_run-Qualifies = (
    λ h.
        let (d, e, s) = (validate_run-IsAccepted spec run files).0 h.0 in
        (
          d,
          e,
          s,
          (limited_by-clean spec run d spec.kind).0 (rw (limited-validate_run d e s) at h.1),
        ),
    λ (d, e, s, u). (
      (validate_run-IsAccepted spec run files).1 (d, e, s),
      rw (limited-validate_run d e s) ((limited_by-clean spec run d spec.kind).1 u),
    ),
  )

-- The report qualifies a group exactly when every expected run is accepted and limits no claim: no
-- unexpected drops, a stable warmup under every headline case that does not start cold, and no
-- origin request where the group's objective is that every read hits.
pub validate_group-qualified :
    (spec : Spec) (dir : Run → RunFiles)
    → ((validate_group spec dir).qualified ≡ true)
      ↔ ((run : Run) → Place run (expected_runs spec) → Qualifies spec run (dir run))
unfolding validate_group
validate_group-qualified spec dir = (
  λ h run m. (validate_run-Qualifies spec run (dir run)).0 (
    collect-all (λ f. f.problems) spec dir (expected_runs spec) (ground arith) m,
    collect-all (λ f. f.limited) spec dir (expected_runs spec) (ground arith) m,
  ),
  λ h.
      and_intro
        (all-collect (λ f. f.problems) spec dir (expected_runs spec)
          (λ run m. ((validate_run-Qualifies spec run (dir run)).1 (h run m)).0))
        (all-collect (λ f. f.limited) spec dir (expected_runs spec)
          (λ run m. ((validate_run-Qualifies spec run (dir run)).1 (h run m)).1)),
)
