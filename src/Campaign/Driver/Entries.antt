-- ===== src/Campaign/Driver/Entries.antt =====
-- The entries that the campaign's loop adds to the progress.
use Prim.Native.String
use mathlib.Core.List.{append_assoc, append-nil}
use cachelib_grpc_server.Common.{
  String, ◌==◌, eq_iff, ◌≡◌, refl, sym, subst, ap, ◌∙◌, false, none, List, [], ◌∷◌, ◌++◌, arith,
  lookup, insert, lookup-insert, Result, ok, err, All,
}
use cachelib_grpc_server.Campaign.Spec.{Spec}
use cachelib_grpc_server.Campaign.Command.{Arg, KeyError, key_error, group_command}
use cachelib_grpc_server.Campaign.Driver.{
  Status, complete, Campaign, World, outcome, Session, done, measure, command, run_groups,
}
use cachelib_grpc_server.Campaign.Driver.Resume.{run_groups-measure}

-- The entries of groups that have not been measured before come one after another.
insert_absent {ℓ} :
    {V : Type ℓ} (k : String) (v : V) (d : List (String × V))
    → lookup k d ≡ none
    → insert k v d ≡ d ++ (k, v) ∷ []
insert_absent k v [] h = refl
insert_absent k v ((j, w) ∷ d) h = ground (arith, insert_absent k v d)

pub insert_twice {ℓ} :
    {V : Type ℓ} (k : String) (v w : V) (d : List (String × V))
    → insert k v (insert k w d) ≡ insert k v d
insert_twice k v w [] = ground (arith, eq_iff k k)
insert_twice k v w ((j, x) ∷ d) = ground (arith, insert_twice k v w d, eq_iff k k)

abbrev pub Differ : Spec → List Spec → Type 0
Differ spec = All (λ t. (spec.name == t.name) ≡ false)

abbrev pub DistinctNames : List Spec → Type 0
DistinctNames [] = Unit
DistinctNames (spec ∷ specs) = Differ spec specs × DistinctNames specs

abbrev pub Absent : List Spec → List (String × Status) → Type 0
Absent specs progress = All (λ (t : Spec). lookup t.name progress ≡ none) specs

-- The entries that measuring the groups adds, each from the group's own command.
pub data Entries (w : World) (images : List (String × String))
    : List Spec → List (String × Status) → Type 0 where
  none_left : Entries w images [] []
  entry :
      (spec : Spec) (parts : List Arg) {specs : List Spec} {es : List (String × Status)}
      → group_command spec images (String.◌++◌ w.runs_root spec.name) ≡ ok parts
      → Entries w images specs es
      → Entries w images (spec ∷ specs) ((spec.name, complete (outcome w spec parts)) ∷ es)

module _ (w : World) (spec : Spec) (state : Campaign) (parts : List Arg) where
  progress-done :
      lookup spec.name state.progress ≡ none
      → (done w spec state parts).progress
        ≡ state.progress ++ (spec.name, complete (outcome w spec parts)) ∷ []
  unfolding done
  progress-done absent =
      insert_twice spec.name _ _ state.progress ∙ insert_absent spec.name _ state.progress absent

  Absent-done :
      (specs : List Spec)
      → Differ spec specs
      → Absent specs state.progress
      → Absent specs (done w spec state parts).progress
  unfolding done
  Absent-done [] d a = tt
  Absent-done (t ∷ specs) d a = (simp lookup-insert (rw d.0 a.0), Absent-done specs d.1 a.1)

-- Where the loop over the later groups adds the entries of those groups, it adds all.
abbrev pub Adds :
    World → List (String × String) → List Spec → List (String × Status) → Campaign → Type 0
Adds w images specs progress s =
    (es : List (String × Status)) × Entries w images specs es × (s.progress ≡ progress ++ es)

measure-Adds :
    (w : World) (spec : Spec) (specs : List Spec) (state : Campaign)
    (r : Result KeyError (List Arg)) {s : Campaign}
    → command w spec state ≡ r
    → lookup spec.name state.progress ≡ none
    → ((parts : List Arg)
        → (run_groups w specs (done w spec state parts)).last ≡ ok s
        → Adds w state.images specs (done w spec state parts).progress s)
    → (measure w spec state (run_groups w specs) r).last ≡ ok s
    → Adds w state.images (spec ∷ specs) state.progress s
unfolding measure
measure-Adds w spec specs state (err (key_error k)) c absent later h = cc
measure-Adds w spec specs state (ok parts) c absent later h =
    let (es, entries, e) = later parts h in
    (
      (spec.name, complete (outcome w spec parts)) ∷ es,
      entry spec parts c entries,
      e
          ∙ ap (λ p. p ++ es) (progress-done w spec state parts absent)
          ∙ append_assoc state.progress _ es,
    )

pub run_groups-Adds :
    (w : World) (specs : List Spec) (state : Campaign) {s : Campaign}
    → DistinctNames specs
    → Absent specs state.progress
    → (run_groups w specs state).last ≡ ok s
    → Adds w state.images specs state.progress s
unfolding run_groups done
run_groups-Adds w [] state {s} d a h =
    let e : state ≡ s = cc in
    ([], none_left, rw append-nil (ap (λ (x : Campaign). x.progress) (sym e)))
run_groups-Adds w (spec ∷ specs) state {s} d a h =
    measure-Adds w spec specs state (command w spec state) refl a.0
      (λ parts k.
        run_groups-Adds w specs (done w spec state parts) d.1
          (Absent-done w spec state parts specs d.0 a.1) k)
      (subst (λ (x : Session). x.last ≡ ok s) (run_groups-measure w spec specs state a.0) h)
