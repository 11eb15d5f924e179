-- ===== src/Campaign/Driver/Verdict.antt =====
-- The verdict of a campaign: its exit status against the evidence of its groups.
use Prim.Native.String
use cachelib_grpc_server.Common.{
  ℕ, String, ◌==◌, ◌≡◌, refl, sym, subst, ap, ◌∙◌, ◌↔◌, Bool, true, false, not, ◌&&◌, Option, some,
  List, [], ◌∷◌, map, arith, eqb, ltb, Result, ok, >>=-eq-ok, raise_if-eq-ok, All, Place,
}
use cachelib_grpc_server.Campaign.Spec.{Spec, Run, expected_runs}
use cachelib_grpc_server.Campaign.Command.{Arg, group_command}
use cachelib_grpc_server.Campaign.Validate.{validate_group}
use cachelib_grpc_server.Campaign.Validate.Accepted.{IsAccepted, validate_group-valid}
use cachelib_grpc_server.Campaign.Driver.{
  CampaignError, Status, complete, Outcome, Campaign, World, is_mixed_architecture, fresh_state,
  start, outcome, run_groups, all_flags, finish, exit_status, run,
}
use cachelib_grpc_server.Campaign.Driver.Entries.{
  DistinctNames, Absent, Entries, none_left, entry, Adds, run_groups-Adds,
}

-- What a group needs, to count as valid: its command exists, both programs end with status 0, and
-- every expected run is accepted.
abbrev pub Passes : World → List (String × String) → Spec → Type 0
Passes w images spec =
    (parts : List Arg) × (group_command spec images (String.◌++◌ w.runs_root spec.name) ≡ ok parts)
    × (w.exit_code parts ≡ 0)
    × (w.summary_code spec ≡ 0)
    × ((run : Run) → Place run (expected_runs spec) → IsAccepted spec run (w.evidence parts run))

outcome-valid :
    (w : World) (spec : Spec) (parts : List Arg)
    → (outcome w spec parts).valid ≡ (
        eqb (w.exit_code parts) 0
        && (eqb (w.summary_code spec) 0 && (validate_group spec (w.evidence parts)).valid))
unfolding outcome
outcome-valid w spec parts = ground arith

outcome-Passes :
    (w : World) (images : List (String × String)) (spec : Spec) (parts : List Arg)
    → group_command spec images (String.◌++◌ w.runs_root spec.name) ≡ ok parts
    → ((outcome w spec parts).valid ≡ true) ↔ Passes w images spec
outcome-Passes w images spec parts c = rw outcome-valid (
  λ h. (
    parts,
    c,
    ground arith,
    ground arith,
    (validate_group-valid spec (w.evidence parts)).0 (ground arith),
  ),
  λ (other, c', exit, summary, accepted).
      let same : other ≡ parts = cc in
      let valid = (validate_group-valid spec (w.evidence parts)).1 (
        subst
          (λ p.
            (run : Run) → Place run (expected_runs spec) → IsAccepted spec run (w.evidence p run))
          same accepted) in
      let exit' : w.exit_code parts ≡ 0 = subst (λ p. w.exit_code p ≡ 0) same exit in ground arith,
)

all_flags-entry :
    (name : String) (o : Outcome) (es : List (String × Status))
    → (all_flags (λ o. o.valid) ((name, complete o) ∷ es) ≡ ok true)
      ↔ ((o.valid ≡ true) × (all_flags (λ o. o.valid) es ≡ ok true))
unfolding all_flags
all_flags-entry name o es = (λ h. (ground arith, ground arith), λ h. ground arith)

all_flags-Passes :
    (w : World) (images : List (String × String)) {specs : List Spec} {es : List (String × Status)}
    → Entries w images specs es
    → (all_flags (λ o. o.valid) es ≡ ok true) ↔ All (Passes w images) specs
unfolding all_flags
all_flags-Passes w images none_left = (λ h. tt, λ h. refl)
all_flags-Passes w images (entry spec parts {es = es} c entries) =
    let first = outcome-Passes w images spec parts c in
    let rest = all_flags-Passes w images entries in
    let both = all_flags-entry spec.name (outcome w spec parts) es in
    (λ h. (first.0 (both.0 h).0, rest.0 (both.0 h).1), λ h. both.1 (first.1 h.0, rest.1 h.1))

-- The images that a fresh campaign pins: what the tags resolve to.
abbrev pub pinned : World → List (String × String)
pinned w = map (λ (r : String × String). (r.0, w.resolve r.1)) w.references

module _ (same_groups : List Spec → List Spec → Bool) where
  pub start-fresh :
      (w : World) (groups : List Spec) {s : Campaign}
      → w.resume ≡ false
      → start same_groups w groups ≡ ok s
      → (s.images ≡ pinned w) × (s.progress ≡ [])
  unfolding start fresh_state
  start-fresh w groups {s} r h =
      let (given, h1) = raise_if-eq-ok (w.grpc_image == "") _ h in
      let (inside, h2) = raise_if-eq-ok (not w.inside_repository) _ h1 in
      let h3 : fresh_state same_groups w groups ≡ ok s = ground arith in
      let (fresh, h4) = raise_if-eq-ok w.outputs_exist _ h3 in
      let (cpus, h5) = raise_if-eq-ok (ltb w.ncpu 8) _ h4 in
      let (same, h6) = raise_if-eq-ok (is_mixed_architecture w) _ h5 in (cc, cc)

ok_injective : {a b : Bool} → ◌≡◌ {A = Result CampaignError Bool} (ok a) (ok b) → a ≡ b
ok_injective h = cc

finish-flags :
    (s : Campaign) {f : Campaign}
    → finish s ≡ ok f
    → (q v : Bool) × (f.finished ≡ some (q, v)) × (all_flags (λ o. o.valid) s.progress ≡ ok v)
unfolding finish
finish-flags s h =
    let (q, hq, h1) = >>=-eq-ok (all_flags (λ o. o.qualified) s.progress) _ h in
    let (v, hv, h2) = >>=-eq-ok (all_flags (λ o. o.valid) s.progress) _ h1 in (q, v, cc, hv)

Absent-nil : (groups : List Spec) → Absent groups []
Absent-nil [] = tt
Absent-nil (g ∷ gs) = (refl, Absent-nil gs)

Adds-fresh :
    (w : World) (groups : List Spec) (images : List (String × String)) (state : Campaign)
    {last : Campaign}
    → state.images ≡ images
    → state.progress ≡ []
    → DistinctNames groups
    → (run_groups w groups state).last ≡ ok last
    → Adds w images groups [] last
Adds-fresh w groups images state {last} pins empty distinct h =
    subst (λ i. Adds w i groups [] last) pins
      (subst (λ p. Adds w state.images groups p last) empty
        (run_groups-Adds w groups state distinct
          (subst (Absent groups) (sym empty) (Absent-nil groups)) h))

exit_status-zero :
    (f : Option (Bool × Bool)) (q v : Bool) → f ≡ some (q, v) → (exit_status f ≡ 0) ↔ (v ≡ true)
exit_status-zero f q true e = rw e (λ h. refl, λ h. refl)
exit_status-zero f q false e = rw e (λ h. absurd (omega arith), λ h. absurd (cc))

fresh_verdict :
    (w : World) (groups : List Spec) (images : List (String × String)) (last : Campaign)
    {f : Campaign}
    → Adds w images groups [] last
    → finish last ≡ ok f
    → (exit_status f.finished ≡ 0) ↔ All (Passes w images) groups
fresh_verdict w groups images last {f} (es, entries, e) h =
    let (q, v, flags, valid) = finish-flags last h in
    let passes = all_flags-Passes w images entries in
    let status = exit_status-zero f.finished q v flags in
    let at_es : all_flags (λ o. o.valid) es ≡ ok v =
      subst (λ p. all_flags (λ o. o.valid) p ≡ ok v) e valid in
    (
      λ z. passes.0 (at_es ∙ ap ok (status.0 z)),
      λ a. status.1 (ok_injective (sym at_es ∙ passes.1 a)),
    )

-- A campaign that is not resumed, over groups with distinct names, and that comes to its end, exits
-- with status 0 exactly when every group passes: its harness and its summarizer exited with 0, and
-- every run that the group's definition expects is accepted.
pub run_verdict :
    (same_groups : List Spec → List Spec → Bool) (w : World) (groups : List Spec) {final : Campaign}
    {code : ℕ}
    → w.resume ≡ false
    → DistinctNames groups
    → run same_groups w groups ≡ ok (final, code)
    → (code ≡ 0) ↔ All (Passes w (pinned w)) groups
unfolding run
run_verdict same_groups w groups {final} {code} r distinct h =
    let (state, started, h1) = >>=-eq-ok (start same_groups w groups) _ h in
    let (last, looped, h2) = >>=-eq-ok (run_groups w groups state).last _ h1 in
    let (f, finished, h3) = >>=-eq-ok (finish last) _ h2 in
    let (images, empty) = start-fresh same_groups w groups r started in
    let e : exit_status f.finished ≡ code = cc in
    subst (λ c. (c ≡ 0) ↔ All (Passes w (pinned w)) groups) e
      (fresh_verdict w groups (pinned w) last
        (Adds-fresh w groups (pinned w) state images empty distinct looped) finished)
