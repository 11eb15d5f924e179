-- ===== src/Http/Harness/Outcome.antt =====
-- What an HTTP run leaves in its directory, and what `validate_group` makes of it.
use cachelib_grpc_server.Common.{
  String, ◌==◌, ◌≡◌, refl, ap, subst, ◌∙◌, inl, inr, false, some, List, [], ◌∷◌, ◌++◌, Result, ok,
  err, arith, if◌then◌else◌,
}
use cachelib_grpc_server.Campaign.Spec.{Spec, Run}
use cachelib_grpc_server.Campaign.Evidence.{Doc, is_nonzero, parsed}
use cachelib_grpc_server.Harness.Actions.{continue}
use cachelib_grpc_server.Campaign.Validate.{value}
use cachelib_grpc_server.Campaign.Validate.Accepted.{IsAccepted}
use cachelib_grpc_server.Harness.RunOnce.{result_file}
use cachelib_grpc_server.Http.Harness.{
  Dir, World, fresh, start_path, conclude, measure, body, handle, remove_part, remove_parts,
  reverse, cleanup, run_one, files_of,
}

-- The containers between the client and the origin that an engine needs, in the order in which
-- bench/strong/summarize.py names their figures.
abbrev pub containers_of : String → List String
containers_of engine =
    if engine == "nginx"
    then "target" ∷ []
    else if engine == "grpc_adapter"
    then "cache" ∷ "target" ∷ []
    else []

-- When an HTTP run leaves a result, it names exactly the engine's containers, in order, and those and
-- the client are the containers that the run has started.
pub result-containers :
    (w : World) (engine : String) {d : Doc}
    → (body w engine fresh).1.result ≡ some d
    → ((body w engine fresh).1.path_containers ≡ containers_of engine)
      × ((body w engine fresh).1.active ≡ containers_of engine ++ "client" ∷ [])
unfolding body measure conclude start_path
result-containers w engine h = (ground arith, ground arith)

-- What `validate_group` reads is not touched by the clean-up.
remove_part-files :
    (w : World) (part : String) (dir : Dir) → files_of (remove_part w part dir).1 ≡ files_of dir
remove_part-files w part dir = ground arith

continue-files :
    (w : World) (parts : List String) (r : Result String (Unit {0})) (dir : Dir)
    → files_of (remove_parts w parts dir).1 ≡ files_of dir
    → files_of (continue r (λ done. remove_parts w parts) dir).1 ≡ files_of dir
continue-files w parts (ok a) dir h = h
continue-files w parts (err e) dir h = refl

remove_parts-files :
    (w : World) (parts : List String) (dir : Dir)
    → files_of (remove_parts w parts dir).1 ≡ files_of dir
unfolding remove_parts
remove_parts-files w [] dir = refl
remove_parts-files w (part ∷ parts) dir =
    let (r, dir') = remove_part w part dir in
    continue-files w parts r dir' (remove_parts-files w parts dir') ∙ remove_part-files w part dir

files-run_one :
    (w : World) (engine : String) {r : Result String (Unit {0})}
    → (body w engine fresh).0 ≡ r
    → files_of (run_one w engine).1 ≡ files_of (handle r (body w engine fresh).1)
unfolding run_one cleanup
files-run_one w engine e =
    let dir = handle (body w engine fresh).0 (body w engine fresh).1 in
    remove_parts-files w (reverse dir.active) dir
    ∙ ap (λ t. files_of (handle t (body w engine fresh).1)) e

result-read :
    (w : World) (engine : String) {d : Doc}
    → result_file (body w engine fresh).1.result ≡ parsed d
    → w.result_line ≡ ok d
unfolding body measure conclude start_path
result-read w engine h = ground arith

-- An HTTP run whose body raised is never accepted as evidence, even if its result was written, as
-- long as the client does not report dropped arrivals, which are no field of an HTTP result.
pub raised_refused :
    (w : World) (engine : String) (spec : Spec) (run : Run) {t : String}
    → (body w engine fresh).0 ≡ err t
    → ((d : Doc) → w.result_line ≡ ok d → is_nonzero (value d.dropped_arrivals) ≡ false)
    → ¬ IsAccepted spec run (files_of (run_one w engine).1)
raised_refused w engine spec run {t} e undropped a =
    let (d, read, sound) = subst (IsAccepted spec run) (files-run_one w engine e) a in
    let none_dropped = undropped d (result-read w engine read) in
    elim sound.unmarked [ inl unmarked ↦ cc | inr dropped ↦ cc ]
