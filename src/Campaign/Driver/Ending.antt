-- ===== src/Campaign/Driver/Ending.antt =====
-- A campaign that starts comes to its end.
use Prim.Native.String
use cachelib_grpc_server.Common.{
  ℕ, String, ◌==◌, eq_iff, ◌≡◌, refl, sym, subst, ap, ◌∙◌, Bool, true, false, false, not,
  Bool-cases, inl, inr, Option, some, Option-cases, List, [], ◌∷◌, is_some, is_empty, lookup,
  insert, lookup-insert, if◌then◌else◌, ok, >>=-eq-ok, raise_if-eq-ok, All, arith,
}
use cachelib_grpc_server.Campaign.Spec.{Spec, Kind, kv, http}
use cachelib_grpc_server.Campaign.Command.{
  Arg, image, image_id, kv_args, http_args, common_args, kind_args, group_command,
}
use cachelib_grpc_server.Campaign.Driver.{
  Status, running, complete, Outcome, Campaign, World, running_names, load, start, outcome, done,
  measure, run_groups, all_flags, finish, exit_status, run,
}
use cachelib_grpc_server.Campaign.Driver.Entries.{insert_twice}
use cachelib_grpc_server.Campaign.Driver.Resume.{resume_state-eq-ok}
use cachelib_grpc_server.Campaign.Driver.Verdict.{start-fresh}

-- An image that a command needs is there.
abbrev pub HasImage : List (String × String) → String → Type 0
HasImage images key = is_some (lookup key images) ≡ true

abbrev pub command_images : List String
command_images = "grpc" ∷ "go" ∷ "python" ∷ "nginx" ∷ []

image_id-ok :
    (key : String) (images : List (String × String))
    → HasImage images key
    → (a : Arg) × (image_id key images ≡ ok a)
image_id-ok key images h = elim (Option-cases (lookup key images)) [
  | inl n ↦ absurd (missing (rw n at h))
  | inr (i, e) ↦ (image i, rw e refl)
]
  where
    missing : false ≡ true → ⊥
    missing e = cc

kind_args-ok :
    (kind : Kind) (spec : Spec) (images : List (String × String))
    → All (HasImage images) command_images
    → (args : List Arg) × (kind_args kind spec images ≡ ok args)
kind_args-ok kv spec images h =
    let (python, p) = image_id-ok "python" images h.1.1.0 in (kv_args spec images python, rw p refl)
kind_args-ok http spec images h =
    let (python, p) = image_id-ok "python" images h.1.1.0 in
    let (nginx, n) = image_id-ok "nginx" images h.1.1.1.0 in
    (http_args python nginx, rw (p, n) refl)

group_command-ok :
    (spec : Spec) (images : List (String × String)) (output : String)
    → All (HasImage images) command_images
    → (parts : List Arg) × (group_command spec images output ≡ ok parts)
unfolding group_command
group_command-ok spec images output h =
    let (grpc, g) = image_id-ok "grpc" images h.0 in
    let (go, o) = image_id-ok "go" images h.1.0 in
    let (rest, r) = kind_args-ok spec.kind spec images h in
    (common_args spec grpc go output rest, rw (g, o, r) refl)

-- An entry that is complete, and a group that has one.
abbrev IsComplete : String × Status → Type 0
IsComplete e = (o : Outcome) × (e.1 ≡ complete o)

abbrev pub IsDone : List (String × Status) → Spec → Type 0
IsDone progress g = (o : Outcome) × (lookup g.name progress ≡ some (complete o))

complete-insert :
    (name : String) (o : Outcome) (p : List (String × Status))
    → All IsComplete p
    → All IsComplete (insert name (complete o) p)
complete-insert name o [] h = ((o, refl), tt)
complete-insert name o ((j, s) ∷ p) h = elim (Bool-cases (j == name)) [
  | inl e ↦ rw e ((o, refl), h.1)
  | inr e ↦ rw e (h.0, complete-insert name o p h.1)
]

complete-lookup :
    (name : String) (p : List (String × Status)) {s : Status}
    → All IsComplete p
    → lookup name p ≡ some s
    → (o : Outcome) × (s ≡ complete o)
complete-lookup name [] h e = cc
complete-lookup name ((j, t) ∷ p) h e = elim (Bool-cases (j == name)) [
  | inl q ↦ let same = some_injective (rw q at e) in (h.0.0, sym same ∙ h.0.1)
  | inr q ↦ complete-lookup name p h.1 (rw q at e)
]
  where
    some_injective : {a b : Status} → ◌≡◌ {A = Option Status} (some a) (some b) → a ≡ b
    some_injective e = cc

complete-running_names :
    (p : List (String × Status)) → is_empty (running_names p) ≡ true → All IsComplete p
complete-running_names [] h = tt
complete-running_names ((name, running) ∷ p) h = cc
complete-running_names ((name, complete o) ∷ p) h = ((o, refl), complete-running_names p h)

lookup-done :
    (w : World) (spec : Spec) (state : Campaign) (parts : List Arg) (g : Spec)
    → lookup g.name (done w spec state parts).progress ≡ (
        if spec.name == g.name
        then some (complete (outcome w spec parts))
        else lookup g.name state.progress)
unfolding done
lookup-done w spec state parts g =
    ap (lookup g.name) (insert_twice spec.name _ _ state.progress)
    ∙ lookup-insert spec.name g.name _ state.progress

IsDone-done :
    (w : World) (spec : Spec) (state : Campaign) (parts : List Arg) (g : Spec)
    → IsDone state.progress g
    → IsDone (done w spec state parts).progress g
IsDone-done w spec state parts g (o, e) = elim (Bool-cases (spec.name == g.name)) [
  | inl same ↦ (outcome w spec parts, lookup-done w spec state parts g ∙ (rw same refl))
  | inr other ↦ (o, lookup-done w spec state parts g ∙ (rw other e))
]

IsDone-self :
    (w : World) (spec : Spec) (state : Campaign) (parts : List Arg)
    → IsDone (done w spec state parts).progress spec
IsDone-self w spec state parts =
    let same : (spec.name == spec.name) ≡ true = ground (arith, eq_iff spec.name spec.name) in
    (outcome w spec parts, lookup-done w spec state parts spec ∙ (rw same refl))

complete-done :
    (w : World) (spec : Spec) (state : Campaign) (parts : List Arg)
    → All IsComplete state.progress
    → All IsComplete (done w spec state parts).progress
unfolding done
complete-done w spec state parts h =
    subst (All IsComplete) (sym (insert_twice spec.name _ _ state.progress))
      (complete-insert spec.name (outcome w spec parts) state.progress h)

-- Where the loop over the groups ends, and what holds then.
record Ends (w : World) (groups : List Spec) (state : Campaign) : Type 0 where
  last : Campaign
  ended : (run_groups w groups state).last ≡ ok last
  whole : All IsComplete last.progress
  groups_done : All (IsDone last.progress) groups
  still_done : (g : Spec) → IsDone state.progress g → IsDone last.progress g

run_groups-Ends :
    (w : World) (groups : List Spec) (state : Campaign)
    → All (HasImage state.images) command_images
    → All IsComplete state.progress
    → Ends w groups state
unfolding run_groups done measure
run_groups-Ends w [] state i h = record {
  last = state;
  ended = refl;
  whole = h;
  groups_done = tt;
  still_done = λ g d. d;
}
run_groups-Ends w (spec ∷ specs) state i h = elim (Option-cases (lookup spec.name state.progress)) [
  | inr (s, e) ↦
      let rest = run_groups-Ends w specs state i h in
      let (o, c) = complete-lookup spec.name state.progress h e in
      record {
        last = rest.last;
        ended = rw e rest.ended;
        whole = rest.whole;
        groups_done = (rest.still_done spec (o, e ∙ ap (λ t. some t) c), rest.groups_done);
        still_done = rest.still_done;
      }
  | inl absent ↦
      let (parts, c) = group_command-ok spec state.images (String.◌++◌ w.runs_root spec.name) i in
      let next = done w spec state parts in
      let rest = run_groups-Ends w specs next i (complete-done w spec state parts h) in
      record {
        last = rest.last;
        ended = rw (absent, c) rest.ended;
        whole = rest.whole;
        groups_done = (rest.still_done spec (IsDone-self w spec state parts), rest.groups_done);
        still_done = λ g d. rest.still_done g (IsDone-done w spec state parts g d);
      }
]

all_flags-ok :
    (flag : Outcome → Bool) (p : List (String × Status))
    → All IsComplete p
    → (b : Bool) × (all_flags flag p ≡ ok b)
unfolding all_flags
all_flags-ok flag [] h = (true, refl)
all_flags-ok flag ((name, running) ∷ p) h = cc
all_flags-ok flag ((name, complete o) ∷ p) h =
    let (b, e) = all_flags-ok flag p h.1 in
    elim (Bool-cases (flag o)) [ inl t ↦ (b, rw t e) | inr f ↦ (false, rw f refl) ]

module _ (same_groups : List Spec → List Spec → Bool) where
  complete-start :
      (w : World) (groups : List Spec) {state : Campaign}
      → start same_groups w groups ≡ ok state
      → All IsComplete state.progress
  unfolding start
  complete-start w groups {state} h = elim (Bool-cases w.resume) [
    | inr fresh ↦ subst (All IsComplete) (sym (start-fresh same_groups w groups fresh h).1) tt
    | inl resumed ↦
        let (given, h1) = raise_if-eq-ok (w.grpc_image == "") _ h in
        let (inside, h2) = raise_if-eq-ok (not w.inside_repository) _ h1 in
        let (saved, l, h3) = >>=-eq-ok (load same_groups w.saved) _ (rw resumed at h2) in
        let (same, groups_same, idle) = resume_state-eq-ok same_groups w groups saved h3 in
        complete-running_names state.progress (rw same idle)
  ]

  -- A campaign that starts, fresh or resumed, and has the four images that the commands name, comes
  -- to its end with an exit status, and then every group has been measured.
  pub run-IsDone :
      (w : World) (groups : List Spec) {state : Campaign}
      → start same_groups w groups ≡ ok state
      → All (HasImage state.images) command_images
      → (final : Campaign) × (code : ℕ) × (run same_groups w groups ≡ ok (final, code))
        × All (IsDone final.progress) groups
  unfolding run finish
  run-IsDone w groups {state} h i =
      let e = run_groups-Ends w groups state i (complete-start w groups h) in
      let last = e.last in
      let (q, hq) = all_flags-ok (λ o. o.qualified) last.progress e.whole in
      let (v, hv) = all_flags-ok (λ o. o.valid) last.progress e.whole in
      (
        record last { finished = some (q, v) },
        exit_status (some (q, v)),
        rw (h, e.ended, hq, hv) refl,
        e.groups_done,
      )
