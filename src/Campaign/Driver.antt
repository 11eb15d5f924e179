-- ===== src/Campaign/Driver.antt =====
-- bench/strong/release_campaign.py: `run`, the campaign itself. What it saves to `campaign.json` is
-- the state, and `saves` lists what it writes there, in order.
pub mod Resume
pub mod Entries
pub mod Verdict
pub mod Ending
use Prim.Native.String
use cachelib_grpc_server.Common.{
  ℕ, ◌+◌, String, ◌==◌, Bool, true, false, not, ◌&&◌, ◌||◌, Option, none, some, List, [], ◌∷◌, ◌++◌,
  map, is_empty, elem, eqb, ltb, is_some, if◌then◌else◌, lookup, insert, Result, ok, err, ◌>>=◌,
  ◌>>◌, raise_if,
}
use cachelib_grpc_server.Campaign.Spec.{Spec, Run}
use cachelib_grpc_server.Campaign.Evidence.{RunFiles, Issue, harness_exit}
use cachelib_grpc_server.Campaign.Validate.{Report, validate_group}
use cachelib_grpc_server.Campaign.Command.{Arg, KeyError, key_error, group_command}

pub data CampaignError : Type 0 where
  grpc_image_required outside_repository no_campaign harness_changed : CampaignError
  definition_changed image_changed output_exists too_few_cpus mixed_architectures : CampaignError
  interrupted : List String → CampaignError
  key_missing : String → CampaignError

-- The group's entry once it is complete: its report, and what the two programs' exits add to it.
pub record Outcome : Type 0 where
  pub report : Report
  pub exits : List Issue
  pub valid : Bool
  pub qualified : Bool

pub data Status : Type 0 where
  running : Status
  complete : Outcome → Status

pub record Campaign : Type 0 where
  pub images : List (String × String)
  pub harness : List (String × String)
  pub groups : List Spec
  pub progress : List (String × Status)
  -- `qualified` and `valid`, written at the end
  pub finished : Option (Bool × Bool)

-- What the campaign asks of the machine: the arguments' checks, the file hashes, the images that
-- the tags resolve to, and what a measured group leaves behind.
pub record World : Type 0 where
  pub grpc_image : String
  pub inside_repository : Bool
  pub resume : Bool
  pub saved : Option Campaign
  pub outputs_exist : Bool
  pub ncpu : ℕ
  pub file_hash : String → String
  pub harness_files : List String
  pub references : List (String × String)
  pub resolve : String → String
  pub architecture : String → String
  pub runs_root : String
  pub exit_code : List Arg → ℕ
  pub summary_code : Spec → ℕ
  pub evidence : List Arg → Run → RunFiles

abbrev pub all_match : (String → String) → List (String × String) → Bool
all_match hash [] = true
all_match hash ((name, digest) ∷ files) = hash name == digest && all_match hash files

abbrev pub running_names : List (String × Status) → List String
running_names [] = []
running_names ((name, running) ∷ progress) = name ∷ running_names progress
running_names ((name, complete o) ∷ progress) = running_names progress

-- `state["images"]["grpc"]["id"]`
abbrev pub recorded_image : Option String → Result CampaignError String
recorded_image none = err (key_missing "grpc")
recorded_image (some i) = ok i

abbrev all_same : List String → Bool
all_same [] = true
all_same (a ∷ []) = true
all_same (a ∷ b ∷ rest) = a == b && all_same (b ∷ rest)

-- `len(architectures) != 1`
abbrev pub is_mixed_architecture : World → Bool
is_mixed_architecture w =
    not (all_same (map (λ (r : String × String). w.architecture r.1) w.references))

-- Equality of a recorded definition with the present one is a parameter: Python compares the
-- dictionaries.
module _ (same_groups : List Spec → List Spec → Bool) where
  -- `--resume`: the saved state, if nothing that it rests on has changed.
  unfoldable pub resume_state : World → List Spec → Campaign → Result CampaignError Campaign
  resume_state w groups state = do
    raise_if (not (all_match w.file_hash state.harness)) harness_changed
    raise_if (not (same_groups state.groups groups)) definition_changed
    recorded ← recorded_image (lookup "grpc" state.images)
    raise_if (not (recorded == w.resolve w.grpc_image)) image_changed
    raise_if (not (is_empty (running_names state.progress)))
        (interrupted (running_names state.progress))
    ok state

  unfoldable pub fresh_state : World → List Spec → Result CampaignError Campaign
  fresh_state w groups = do
    raise_if w.outputs_exist output_exists
    raise_if (ltb w.ncpu 8) too_few_cpus
    raise_if (is_mixed_architecture w) mixed_architectures
    ok (record {
      images = map (λ r. (r.0, w.resolve r.1)) w.references;
      harness = map (λ f. (f, w.file_hash f)) w.harness_files;
      groups = groups;
      progress = [];
      finished = none;
    })

  abbrev pub load : Option Campaign → Result CampaignError Campaign
  load none = err no_campaign
  load (some state) = ok state

  unfoldable pub start : World → List Spec → Result CampaignError Campaign
  unfolding resume_state fresh_state
  start w groups = do
    raise_if (w.grpc_image == "") grpc_image_required
    raise_if (not w.inside_repository) outside_repository
    if w.resume
        then (do state ← load w.saved; resume_state w groups state)
        else fresh_state w groups

-- `status.update(validate_group(...))`, and the exit codes of the harness and the summarizer.
unfoldable pub outcome : World → Spec → List Arg → Outcome
outcome w spec parts =
    let report = validate_group spec (w.evidence parts) in
    let failed = not (eqb (w.exit_code parts) 0) || not (eqb (w.summary_code spec) 0) in
    record {
      report = report;
      exits = if failed then harness_exit (w.exit_code parts) (w.summary_code spec) ∷ [] else [];
      valid = not failed && report.valid;
      qualified = not failed && report.qualified;
    }

abbrev pub mark : String → Status → Campaign → Campaign
mark name status state = record state { progress = insert name status state.progress }

-- A session: the groups that it measured, what it saved, and where it ended.
pub record Session : Type 0 where
  pub measured : List String
  pub saves : List Campaign
  pub last : Result CampaignError Campaign

abbrev stopped : CampaignError → Session
stopped e = record { measured = []; saves = []; last = err e }

abbrev after_group : String → Campaign → Campaign → Session → Session
after_group name begun done rest = record {
  measured = name ∷ rest.measured;
  saves = begun ∷ done ∷ rest.saves;
  last = rest.last;
}

abbrev pub begun : Spec → Campaign → Campaign
begun spec state = mark spec.name running state

unfoldable pub done : World → Spec → Campaign → List Arg → Campaign
unfolding outcome
done w spec state parts = mark spec.name (complete (outcome w spec parts)) (begun spec state)

-- One round of the loop, given the command and the loop over the later groups.
unfoldable pub measure :
    World → Spec → Campaign → (Campaign → Session) → Result KeyError (List Arg) → Session
measure w spec state later (err (key_error k)) = stopped (key_missing k)
measure w spec state later (ok parts) =
    let next = done w spec state parts in after_group spec.name (begun spec state) next (later next)

abbrev pub command : World → Spec → Campaign → Result KeyError (List Arg)
command w spec state = group_command spec state.images (String.◌++◌ w.runs_root spec.name)

unfoldable pub run_groups : World → List Spec → Campaign → Session
unfolding measure
run_groups w [] state = record { measured = []; saves = []; last = ok state }
run_groups w (spec ∷ specs) state =
    let skipped = run_groups w specs state in
    let measured = measure w spec state (run_groups w specs) (command w spec state) in
    if is_some (lookup spec.name state.progress) then skipped else measured

-- `all(s["valid"] for s in progress.values())`: an entry without the key raises.
unfoldable pub all_flags : (Outcome → Bool) → List (String × Status) → Result CampaignError Bool
all_flags flag [] = ok true
all_flags flag ((name, running) ∷ progress) = err (key_missing name)
all_flags flag ((name, complete o) ∷ progress) =
    let rest = all_flags flag progress in if flag o then rest else ok false

unfoldable pub finish : Campaign → Result CampaignError Campaign
unfolding all_flags
finish state = do
  qualified ← all_flags (λ o. o.qualified) state.progress
  valid ← all_flags (λ o. o.valid) state.progress
  ok (record state { finished = some (qualified, valid) })

-- `raise SystemExit(0 if state["valid"] else 1)`
abbrev pub exit_status : Option (Bool × Bool) → ℕ
exit_status none = 1
exit_status (some (qualified, valid)) = if valid then 0 else 1

unfoldable pub run :
    (List Spec → List Spec → Bool) → World → List Spec → Result CampaignError (Campaign × ℕ)
unfolding start run_groups finish
run same_groups w groups = do
  state ← start same_groups w groups
  measured ← (run_groups w groups state).last
  final ← finish measured
  ok (final, exit_status final.finished)
