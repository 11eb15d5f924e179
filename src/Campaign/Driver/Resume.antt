-- ===== src/Campaign/Driver/Resume.antt =====
-- What a resumed campaign does: nothing is measured twice, and nothing that was recorded changes.
use cachelib_grpc_server.Common.{
  String, ◌==◌, eq_iff, ◌≡◌, refl, sym, subst, ◌∙◌, ◌≢◌, ◌⊎◌, inl, inr, Bool, true, false, not,
  none, List, [], ◌∷◌, arith, is_empty, is_some, lookup, insert, lookup-insert, Bool-cases,
  Option-cases, Result, ok, err, >>=-eq-ok, raise_if-eq-ok, Place, here, there,
}
use cachelib_grpc_server.Campaign.Spec.{Spec}
use cachelib_grpc_server.Campaign.Command.{Arg, KeyError, key_error}
use cachelib_grpc_server.Campaign.Driver.{
  Status, running, complete, Campaign, World, running_names, all_match, recorded_image,
  resume_state, Session, begun, done, measure, command, run_groups,
}

-- An entry of a state's progress after one group: the group's own, or the one from before.
lookup-done :
    (w : World) (spec : Spec) (state : Campaign) (parts : List Arg) (name : String)
    → (name ≡ spec.name)
      ⊎ (lookup name (done w spec state parts).progress ≡ lookup name state.progress)
unfolding done
lookup-done w spec state parts name = elim (Bool-cases (spec.name == name)) [
  | inl e ↦ inl (ground (arith, eq_iff spec.name name))
  | inr e ↦ inr (simp lookup-insert (ground arith))
]

lookup-done_self :
    (w : World) (spec : Spec) (state : Campaign) (parts : List Arg)
    → lookup spec.name (done w spec state parts).progress ≢ none
unfolding done
lookup-done_self w spec state parts =
    simp lookup-insert (λ h. ground (arith, eq_iff spec.name spec.name))

module _ (w : World) (spec : Spec) (specs : List Spec) (state : Campaign) where
  pub run_groups-skip :
      is_some (lookup spec.name state.progress) ≡ true
      → run_groups w (spec ∷ specs) state ≡ run_groups w specs state
  unfolding run_groups
  run_groups-skip h = rw h

  pub run_groups-measure :
      lookup spec.name state.progress ≡ none
      → run_groups w (spec ∷ specs) state
        ≡ measure w spec state (run_groups w specs) (command w spec state)
  unfolding run_groups
  run_groups-measure h = rw h

measured-measure :
    (w : World) (spec : Spec) (state : Campaign) (later : Campaign → Session)
    (r : Result KeyError (List Arg)) {name : String}
    → lookup spec.name state.progress ≡ none
    → ((s : Campaign) → Place name (later s).measured → lookup name s.progress ≡ none)
    → Place name (measure w spec state later r).measured
    → lookup name state.progress ≡ none
unfolding measure
measured-measure w spec state later (err (key_error k)) absent new m = elim m [ ]
measured-measure w spec state later (ok parts) absent new here = absent
measured-measure w spec state later (ok parts) {name} absent new (there m) =
    let fresh = new (done w spec state parts) m in
    elim (lookup-done w spec state parts name) [ inl same ↦ rw same absent | inr e ↦ sym e ∙ fresh ]

-- A group that the state has an entry of, whatever it says, is not measured.
pub measured-new :
    (w : World) (specs : List Spec) (state : Campaign) {name : String}
    → Place name (run_groups w specs state).measured
    → lookup name state.progress ≡ none
unfolding run_groups
measured-new w [] state m = elim m [ ]
measured-new w (spec ∷ specs) state {name} m =
    elim (Option-cases (lookup spec.name state.progress)) [
      | inl absent ↦
          measured-measure w spec state (run_groups w specs) (command w spec state) absent
            (λ s n. measured-new w specs s n)
            (subst (λ s. Place name s.measured) (run_groups-measure w spec specs state absent) m)
      | inr (st, found) ↦
          measured-new w specs state
            (subst (λ s. Place name s.measured) (run_groups-skip w spec specs state (rw found)) m)
    ]

-- No name occurs twice.
abbrev pub Distinct : List String → Type 0
Distinct [] = Unit
Distinct (name ∷ names) = ((Place name names) → ⊥) × Distinct names

Distinct-measure :
    (w : World) (spec : Spec) (state : Campaign) (later : Campaign → Session)
    (r : Result KeyError (List Arg))
    → ((s : Campaign) → Place spec.name (later s).measured → lookup spec.name s.progress ≡ none)
    → ((s : Campaign) → Distinct (later s).measured)
    → Distinct (measure w spec state later r).measured
unfolding measure
Distinct-measure w spec state later (err (key_error k)) new distinct = tt
Distinct-measure w spec state later (ok parts) new distinct = (
  λ m. lookup-done_self w spec state parts (new (done w spec state parts) m),
  distinct (done w spec state parts),
)

-- No group is measured twice in a session, not even where two definitions share a name.
pub measured-Distinct :
    (w : World) (specs : List Spec) (state : Campaign)
    → Distinct (run_groups w specs state).measured
unfolding run_groups
measured-Distinct w [] state = tt
measured-Distinct w (spec ∷ specs) state = elim (Option-cases (lookup spec.name state.progress)) [
  | inl absent ↦
      subst (λ s. Distinct s.measured) (sym (run_groups-measure w spec specs state absent))
        (Distinct-measure w spec state (run_groups w specs) (command w spec state)
          (λ s m. measured-new w specs s m) (measured-Distinct w specs))
  | inr (st, found) ↦
      subst (λ s. Distinct s.measured) (sym (run_groups-skip w spec specs state (rw found)))
        (measured-Distinct w specs state)
]

-- A group's entry that was saved while it was measured marks the state as interrupted.
running_names-insert :
    (name : String) (progress : List (String × Status))
    → is_empty (running_names (insert name running progress)) ≡ false
running_names-insert name [] = refl
running_names-insert name ((j, running) ∷ progress) =
    ground (arith, running_names-insert name progress)
running_names-insert name ((j, complete o) ∷ progress) =
    ground (arith, running_names-insert name progress)

module _ (same_groups : List Spec → List Spec → Bool) where
  -- What a resumed campaign starts from is the saved state itself; its recorded definition compares
  -- equal to the present one, and no group is under way in it.
  pub resume_state-eq-ok :
      (w : World) (groups : List Spec) (state : Campaign) {s : Campaign}
      → resume_state same_groups w groups state ≡ ok s
      → (s ≡ state)
        × (same_groups state.groups groups ≡ true)
        × (is_empty (running_names state.progress) ≡ true)
  unfolding resume_state
  resume_state-eq-ok w groups state h =
      let (unchanged, h1) = raise_if-eq-ok (not (all_match w.file_hash state.harness)) _ h in
      let (same, h2) = raise_if-eq-ok (not (same_groups state.groups groups)) _ h1 in
      let (i, found, h3) = >>=-eq-ok (recorded_image (lookup "grpc" state.images)) _ h2 in
      let (server, h4) = raise_if-eq-ok (not (i == w.resolve w.grpc_image)) _ h3 in
      let (idle, h5) = raise_if-eq-ok (not (is_empty (running_names state.progress))) _ h4 in
      (cc, ground arith, ground arith)

  -- The state that is saved when a group's measurement begins is never resumed: it names the group
  -- as running.
  pub resume_state-refuses :
      (w : World) (groups : List Spec) (state : Campaign) (spec : Spec) {s : Campaign}
      → resume_state same_groups w groups (begun spec state) ≢ ok s
  resume_state-refuses w groups state spec h =
      let (e, same, idle) = resume_state-eq-ok w groups (begun spec state) h in
      ground (arith, running_names-insert spec.name state.progress)
