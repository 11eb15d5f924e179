-- ===== src/Harness/RunOnce/Cleanup.antt =====
-- What is done in every run, however it ends.
use cachelib_grpc_server.Common.{
  String, ◌≡◌, refl, ◌∙◌, Bool-cases, inl, inr, Bool, true, false, none, [], ◌∷◌, ◌++◌,
  if◌then◌else◌, elem, Result, ok, err, arith,
}
use cachelib_grpc_server.Harness.Engines.{file_tier_engines}
use cachelib_grpc_server.Harness.Setup.{record_flash_usage}
use cachelib_grpc_server.Harness.RunOnce.{
  Dir, fresh, World, body, cleanup, attempt, handle, record_usage, measure, conclude,
}

-- The body removes no container and records no usage.
removed-body :
    (w : World) (dir : Dir)
    → ((body w dir).1.removed ≡ dir.removed) × ((body w dir).1.usage ≡ dir.usage)
unfolding body measure conclude
removed-body w dir = ground arith

removed-handle :
    (r : Result String (Unit {0})) (dir : Dir)
    → ((handle r dir).removed ≡ dir.removed) × ((handle r dir).usage ≡ dir.usage)
removed-handle (ok a) dir = (refl, refl)
removed-handle (err e) dir = (refl, refl)

log-body : (w : World) (dir : Dir) → (body w dir).1.server_log ≡ dir.server_log
unfolding body measure conclude
log-body w dir = ground arith

log-handle : (r : Result String (Unit {0})) (dir : Dir) → (handle r dir).server_log ≡ dir.server_log
log-handle (ok a) dir = refl
log-handle (err e) dir = refl

-- Docker gives the container's log, stops it, and removes it, all in time.
abbrev pub Responds : World → String → Type 0
Responds w container =
    (w.logs container ≡ ok tt) × (w.stops container ≡ ok tt) × (w.removes container ≡ ok true)

-- The last part of `cleanup`, once both containers are gone.
abbrev gone : World → String → Bool → Dir → Dir
gone w engine discard dir =
    record_usage w engine discard
      (record dir { server_log = true; removed = (dir.removed ++ "client" ∷ []) ++ "server" ∷ [] })

cleanup-gone :
    (w : World) (engine : String) (discard : Bool) (dir : Dir)
    → Responds w "client"
    → Responds w "server"
    → cleanup w engine discard dir ≡ (ok tt, gone w engine discard dir)
unfolding cleanup
cleanup-gone w engine discard dir (a, b, c) (d, e, f) = rw (a, b, c, d, e, f) refl

-- The directory after `cleanup`, by what it was before.
abbrev pub Cleaned : World → String → Bool → Dir → Type 0
Cleaned w engine discard dir =
    (dir.removed ≡ "client" ∷ "server" ∷ [])
    × (dir.server_log ≡ true)
    × (dir.usage ≡ (
        if elem engine file_tier_engines
        then (record_flash_usage w.flash_files discard).0
        else none))

gone-Cleaned :
    (w : World) (engine : String) (discard : Bool) (dir : Dir)
    → dir.removed ≡ []
    → dir.usage ≡ none
    → Cleaned w engine discard (gone w engine discard dir)
gone-Cleaned w engine discard dir r u = elim (Bool-cases (elem engine file_tier_engines)) [
  | inl e ↦ rw e (rw r refl, refl, refl)
  | inr e ↦ rw e (rw r refl, refl, u)
]

-- However the body ends, and whatever it raises: when Docker gives the logs of both containers, stops
-- them and removes them in time, the run does not raise, its client and its server are removed, in
-- this order, the server's log is written, and the backing files are recorded if the engine has the
-- mounted directory, and for no other engine.
pub attempt-cleans :
    (w : World) (engine : String) (discard : Bool)
    → Responds w "client"
    → Responds w "server"
    → ((attempt w engine discard fresh).0 ≡ ok tt)
      × Cleaned w engine discard (attempt w engine discard fresh).1
unfolding attempt
attempt-cleans w engine discard c s =
    let (removed, usage) = removed-body w fresh in
    let (kept, none_yet) = removed-handle (body w fresh).0 (body w fresh).1 in
    let last = handle (body w fresh).0 (body w fresh).1 in
    rw (cleanup-gone w engine discard last c s)
      (refl, gone-Cleaned w engine discard last (kept ∙ removed) (none_yet ∙ usage))

-- Where the log of the client cannot be had, the exception of `docker logs` leaves the run: neither
-- container is removed, and neither the server's log nor the backing files are recorded.
pub unlogged-leaves :
    (w : World) (engine : String) (discard : Bool) {t : String}
    → w.logs "client" ≡ err t
    → ((attempt w engine discard fresh).0 ≡ err t)
      × ((attempt w engine discard fresh).1.removed ≡ [])
      × ((attempt w engine discard fresh).1.server_log ≡ false)
      × ((attempt w engine discard fresh).1.usage ≡ none)
unfolding attempt cleanup
unlogged-leaves w engine discard h =
    let (removed, usage) = removed-body w fresh in
    let log = log-body w fresh in
    let (kept, none_yet) = removed-handle (body w fresh).0 (body w fresh).1 in
    let unlogged = log-handle (body w fresh).0 (body w fresh).1 in
    rw h (refl, kept ∙ removed, unlogged ∙ log, none_yet ∙ usage)
