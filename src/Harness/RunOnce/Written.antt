-- ===== src/Harness/RunOnce/Written.antt =====
-- What a run leaves in its directory, and what `validate_group` makes of it.
use cachelib_grpc_server.Common.{
  String, ◌≡◌, sym, ap, subst, ◌⊎◌, inl, inr, Bool, true, false, Option, none, some, elem, Result,
  ok, err, arith,
}
use cachelib_grpc_server.Campaign.Spec.{Spec, Run}
use cachelib_grpc_server.Campaign.Evidence.{
  is_nonzero, is_positive, is_below_99_percent, keys, required, Doc, parsed, Probe,
}
use cachelib_grpc_server.Campaign.Validate.{value, is_seconds, configured_seconds}
use cachelib_grpc_server.Campaign.Validate.Accepted.{IsAccepted, IsProbed}
use cachelib_grpc_server.Harness.RunOnce.{
  Dir, fresh, World, is_flagged, conclude, measure, body, cleanup, attempt, handle, result_file,
  files_of,
}

conclude-keeps :
    (w : World) (d : Doc) (dir : Dir)
    → ((conclude w d dir).1.correctness ≡ dir.correctness)
      × ((conclude w d dir).1.client_started ≡ dir.client_started)
      × ((conclude w d dir).1.result ≡ some d)
unfolding conclude
conclude-keeps w d dir = ground arith

measure-keeps :
    (w : World) (dir : Dir)
    → ((measure w dir).1.correctness ≡ dir.correctness)
      × (((measure w dir).1.result ≡ dir.result) ⊎ ((measure w dir).1.client_started ≡ true))
unfolding measure conclude
measure-keeps w dir = (ground arith, ground arith)

-- When the body leaves a result in the directory, the correctness probe has answered, its answer is
-- in the directory, and the client has been started.
pub result-body :
    (w : World) {d : Doc} (verified : Result String Probe)
    → w.verified ≡ verified
    → (body w fresh).1.result ≡ some d
    → (p : Probe) × (w.verified ≡ ok p)
      × ((body w fresh).1.correctness ≡ some p)
      × ((body w fresh).1.client_started ≡ true)
unfolding body
result-body w (err t) e h = ground arith
result-body w (ok p) e h =
    let kept = measure-keeps w (record fresh { correctness = some p }) in
    (p, e, ground arith, ground arith)

-- What `validate_group` reads is not touched by the clean-up.
cleanup-files :
    (w : World) (engine : String) (discard : Bool) (dir : Dir)
    → files_of (cleanup w engine discard dir).1 ≡ files_of dir
unfolding cleanup
cleanup-files w engine discard dir = ground arith

files-attempt :
    (w : World) (engine : String) (discard : Bool) {r : Result String (Unit {0})}
    → (body w fresh).0 ≡ r
    → files_of (attempt w engine discard fresh).1 ≡ files_of (handle r (body w fresh).1)
unfolding attempt
files-attempt w engine discard e =
    rw (← e) (cleanup-files w engine discard (handle (body w fresh).0 (body w fresh).1))

result_of_file : (o : Option Doc) {d : Doc} → result_file o ≡ parsed d → o ≡ some d
result_of_file none h = cc
result_of_file (some c) h = cc

-- An exception cannot pass as evidence, but where the client had dropped arrivals and had no error:
-- if the body raised and the run is accepted all the same, its result was already written, with
-- dropped arrivals and without errors.
pub raised_accepted :
    (w : World) (engine : String) (discard : Bool) (spec : Spec) (run : Run) {t : String}
    → (body w fresh).0 ≡ err t
    → IsAccepted spec run (files_of (attempt w engine discard fresh).1)
    → (d : Doc) × ((body w fresh).1.result ≡ some d)
      × (is_nonzero (value d.dropped_arrivals) ≡ true)
      × (is_nonzero (value d.errors) ≡ false)
raised_accepted w engine discard spec run {t} e a =
    let (d, read, sound) = subst (IsAccepted spec run) (files-attempt w engine discard e) a in
    (
      d,
      result_of_file (body w fresh).1.result read,
      dropped_of_marked sound.unmarked,
      sound.error_free,
    )
  where
    dropped_of_marked :
        {x : String} {b : Bool} → (◌≡◌ {A = Option String} (some x) none) ⊎ (b ≡ true) → b ≡ true
    dropped_of_marked (inl p) = absurd (cc)
    dropped_of_marked (inr p) = p

-- The conditions on a result that the harness itself does not test.
pub record IsMeasured (spec : Spec) (engine : String) (p : Probe) (d : Doc) : Type 0 where
  pub complete : (k : String) → elem k (required spec.kind) ≡ true → elem k (keys d) ≡ true
  pub sampled : is_positive (value d.latency_samples) ≡ true
  pub configured : is_seconds (configured_seconds spec.kind d) spec.seconds ≡ true
  pub warmed : is_nonzero (value d.warmup_errors) ≡ false
  pub full_time : is_below_99_percent (value d.elapsed_s) spec.seconds ≡ false
  pub probed : IsProbed spec.kind engine (some p)

conclude-written :
    (w : World) (d : Doc) (dir : Dir)
    → (conclude w d dir).0 ≡ ok tt
    → is_flagged d ≡ ok false
    → (conclude w d dir).1.error ≡ dir.error
unfolding conclude
conclude-written w d dir h f = ground arith

measure-written :
    (w : World) (dir : Dir) {d : Doc}
    → w.result_line ≡ ok d
    → is_flagged d ≡ ok false
    → (measure w dir).0 ≡ ok tt
    → ((measure w dir).1.result ≡ some d) × ((measure w dir).1.error ≡ dir.error)
unfolding measure
measure-written w dir {d} l f h =
    let next : Dir = record dir { client_started = true } in
    let written = conclude-written w d next in let kept = conclude-keeps w d next in ground arith

body-written :
    (w : World) {p : Probe} {d : Doc}
    → (body w fresh).0 ≡ ok tt
    → w.verified ≡ ok p
    → w.result_line ≡ ok d
    → is_flagged d ≡ ok false
    → ((body w fresh).1.result ≡ some d)
      × ((body w fresh).1.correctness ≡ some p)
      × ((body w fresh).1.error ≡ none)
unfolding body
body-written w {p} {d} h v l f =
    let dir : Dir = record fresh { correctness = some p } in
    let last = measure-written w dir l f in let kept = measure-keeps w dir in ground arith

exit_zero_of_flag :
    (d : Doc)
    → is_flagged d ≡ ok false
    → (is_nonzero (value d.client_exit_code) ≡ false) × (is_nonzero (value d.errors) ≡ false)
unfolding is_flagged
exit_zero_of_flag d f = (ground arith, ground arith)

-- A run whose body comes to its end, and whose client reports neither a bad exit status, nor
-- errors, nor dropped arrivals, is accepted as soon as what it measured is complete.
pub unflagged-IsAccepted :
    (w : World) (engine : String) (discard : Bool) (spec : Spec) (run : Run) {p : Probe} {d : Doc}
    → (body w fresh).0 ≡ ok tt
    → w.verified ≡ ok p
    → w.result_line ≡ ok d
    → is_flagged d ≡ ok false
    → IsMeasured spec run.engine p d
    → IsAccepted spec run (files_of (attempt w engine discard fresh).1)
unflagged-IsAccepted w engine discard spec run {p} {d} h v l f m =
    let (result, probe, clean) = body-written w h v l f in
    let (exit, errors) = exit_zero_of_flag d f in
    subst (IsAccepted spec run) (sym (files-attempt w engine discard h)) (
      d,
      ap result_file result,
      record {
        complete = m.complete;
        sampled = m.sampled;
        configured = m.configured;
        error_free = errors;
        warmed = m.warmed;
        ended = inl exit;
        full_time = m.full_time;
        probed = subst (IsProbed spec.kind run.engine) (sym probe) m.probed;
        unmarked = inl clean;
      },
    )
