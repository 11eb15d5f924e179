-- ===== src/Http/Harness/Removal.antt =====
-- What is done in every HTTP run, however it ends.
use mathlib.Core.List.{append_assoc, append-nil}
use cachelib_grpc_server.Common.{
  String, ◌≡◌, refl, sym, ap, ◌∙◌, true, List, [], ◌∷◌, ◌++◌, Result, ok, err, arith,
}
use cachelib_grpc_server.Http.Harness.{
  Dir, World, fresh, start_path, conclude, measure, body, handle, log_of, remove_part, remove_parts,
  reverse, cleanup, run_one,
}

-- Docker gives a container's log, stops it, and removes it, all in time.
abbrev pub Responds : World → String → Type 0
Responds w part = (w.logs part ≡ ok tt) × (w.stops part ≡ ok tt) × (w.removes part ≡ ok true)

abbrev gone : String → Dir → Dir
gone part dir = record (log_of part dir) { removed = (log_of part dir).removed ++ part ∷ [] }

removed-log_of : (part : String) (dir : Dir) → (log_of part dir).removed ≡ dir.removed
removed-log_of part dir = ground arith

remove_part-gone :
    (w : World) (part : String) (dir : Dir)
    → Responds w part
    → remove_part w part dir ≡ (ok tt, gone part dir)
remove_part-gone w part dir (a, b, c) = rw (a, b, c) refl

removed-remove_parts :
    (w : World) (parts : List String) (dir : Dir)
    → ((part : String) → Responds w part)
    → ((remove_parts w parts dir).0 ≡ ok tt)
      × ((remove_parts w parts dir).1.removed ≡ dir.removed ++ parts)
unfolding remove_parts
removed-remove_parts w [] dir h = (refl, sym (append-nil dir.removed))
removed-remove_parts w (part ∷ parts) dir h =
    let (done, removed) = removed-remove_parts w parts (gone part dir) h in
    rw (remove_part-gone w part dir (h part)) (
      done,
      removed
          ∙ ap (λ xs. (xs ++ part ∷ []) ++ parts) (removed-log_of part dir)
          ∙ append_assoc dir.removed (part ∷ []) parts,
    )

removed-body : (w : World) (engine : String) → (body w engine fresh).1.removed ≡ []
unfolding body measure conclude start_path
removed-body w engine = ground arith

-- Every container that Docker has started is noted for removal, whatever the body raises.
started-active :
    (w : World) (engine : String) → (body w engine fresh).1.active ≡ (body w engine fresh).1.started
unfolding body measure conclude start_path
started-active w engine = ground arith

active-handle : (r : Result String (Unit {0})) (dir : Dir) → (handle r dir).active ≡ dir.active
active-handle (ok a) dir = refl
active-handle (err e) dir = refl

removed-handle : (r : Result String (Unit {0})) (dir : Dir) → (handle r dir).removed ≡ dir.removed
removed-handle (ok a) dir = refl
removed-handle (err e) dir = refl

-- However an HTTP run ends, and whatever its body raises: when Docker gives the logs of the containers,
-- stops them and removes them in time, the run does not raise, and it removes every container that
-- Docker had started for it, the last first.
pub run_one-removes :
    (w : World) (engine : String)
    → ((part : String) → Responds w part)
    → ((run_one w engine).0 ≡ ok tt)
      × ((run_one w engine).1.removed ≡ reverse (body w engine fresh).1.started)
unfolding run_one cleanup
run_one-removes w engine h =
    let r = (body w engine fresh).0 in
    let dir = (body w engine fresh).1 in
    let (done, removed) = removed-remove_parts w (reverse (handle r dir).active) (handle r dir) h in
    (
      done,
      removed
          ∙ ap (λ xs. xs ++ reverse (handle r dir).active)
              (removed-handle r dir ∙ removed-body w engine)
          ∙ ap reverse (active-handle r dir ∙ started-active w engine),
    )
