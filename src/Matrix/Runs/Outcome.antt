-- ===== src/Matrix/Runs/Outcome.antt =====
-- What a run of the matrix leaves, however it ends.
use cachelib_grpc_server.Common.{
  ◌<◌, String, eq_iff, ◌≡◌, refl, true, Option, none, some, [], ◌∷◌, ◌++◌, if◌then◌else◌, is_some,
  Result, ok, err, arith,
}
use cachelib_grpc_server.Harness.Actions.{Action, continue, modify}
use cachelib_grpc_server.Harness.RunOnce.{await_server}
use cachelib_grpc_server.Matrix.Runs.{
  Case, Stats, Dir, World, fresh, or_zero, write_proof, body, handle, cleanup, run_case,
}

-- What was raised, if anything was.
abbrev pub raised : Result String (Unit {0}) → Option String
raised (ok a) = none
raised (err message) = some message

fresh-body :
    (w : World) (engine : String) (c : Case)
    → ((body w engine c fresh).1.removed ≡ []) × ((body w engine c fresh).1.error ≡ none)
unfolding body
fresh-body w engine c = (ground arith, ground arith)

error-handle :
    (w : World) (r : Result String (Unit {0})) (dir : Dir)
    → dir.error ≡ none
    → dir.removed ≡ []
    → ((handle w r dir).1.error ≡ raised r) × ((handle w r dir).1.removed ≡ [])
error-handle w (ok a) dir e h = (e, h)
error-handle w (err message) dir e h = (ground arith, ground arith)

result-handle :
    (w : World) (r : Result String (Unit {0})) (dir : Dir)
    → ((handle w r dir).0 ≡ (if is_some (raised r) then w.logs else ok tt))
result-handle w (ok a) dir = refl
result-handle w (err message) dir = status w.logs _ _
  where
    status :
        (r : Result String (Unit {0})) (f : Dir → Dir) (d : Dir)
        → ((continue r (λ a. modify f) d).0 ≡ r)
    status (ok a) f d = refl
    status (err e) f d = refl

removed-cleanup :
    (w : World) (dir : Dir)
    → w.stops ≡ true
    → w.removes ≡ true
    → (cleanup w dir ≡ (ok tt, record dir { removed = dir.removed ++ "server" ∷ [] }))
unfolding cleanup
removed-cleanup w dir s m = rw (s, m) refl

-- However the body ends, and whatever it raises: when Docker stops and removes the server in time, the
-- server is removed, once, and `error.txt` is written exactly when the body raised, with what it
-- raised. The run itself raises only where the logs of the server cannot be read after that.
pub run_case-removes :
    (w : World) (engine : String) (c : Case)
    → w.stops ≡ true
    → w.removes ≡ true
    → ((run_case w engine c).1.removed ≡ "server" ∷ [])
      × ((run_case w engine c).1.error ≡ raised (body w engine c fresh).0)
      × ((run_case w engine c).0
          ≡ (if is_some (raised (body w engine c fresh).0) then w.logs else ok tt))
unfolding run_case
run_case-removes w engine c s m =
    let (r, dir) = body w engine c fresh in
    let (none_yet, empty) = fresh-body w engine c in
    let (h, last) = handle w r dir in
    let (error, removed) = error-handle w r dir empty none_yet in
    rw (removed-cleanup w last s m) (rw removed refl, error, result-handle w r dir)

-- What `nvm-proof.txt` says to have increased.
abbrev pub IsProven : String → Case → Dir → Type 0
IsProven engine c dir =
    (engine ≡ "grpc_nvm")
    × (c.mode ≡ "origin")
    × (s : Stats) × (dir.result ≡ some s)
    × (or_zero s.nvm_hits_before < or_zero s.nvm_hits_after)

abbrev Proves : String → Case → Dir → Type 0
Proves engine c dir = dir.nvm_proof ≡ some true → IsProven engine c dir

Proves-continue :
    {A : Type 0} (engine : String) (c : Case) (r : Result String A) (f : A → Action Dir (Unit {0}))
    (dir : Dir)
    → dir.nvm_proof ≡ none
    → ((a : A) → Proves engine c (f a dir).1)
    → Proves engine c (continue r f dir).1
Proves-continue engine c (ok a) f dir empty next = next a
Proves-continue engine c (err e) f dir empty next = λ h. cc

Proves-write_proof :
    (engine : String) (c : Case) (s : Stats) (dir : Dir)
    → dir.nvm_proof ≡ none
    → dir.result ≡ some s
    → Proves engine c (write_proof engine c s dir)
Proves-write_proof engine c s dir empty written h = (
  ground (arith, eq_iff engine "grpc_nvm", eq_iff c.mode "origin"),
  ground (arith, eq_iff engine "grpc_nvm", eq_iff c.mode "origin"),
  s,
  ground arith,
  ground arith,
)

-- A run that is proved to have used the file tier is one of the engine with Navy over an origin, its
-- result is written, and the counter of hits in the file is higher after the measurement than before.
pub body-IsProven :
    (w : World) (engine : String) (c : Case)
    → (body w engine c fresh).1.nvm_proof ≡ some true
    → IsProven engine c (body w engine c fresh).1
unfolding body
body-IsProven w engine c = Proves-continue engine c w.set_up _ _ refl (λ a.
    Proves-continue engine c (await_server 60 0 w.look) _ _ refl (λ a1.
      Proves-continue engine c w.verification _ _ refl (λ a2.
        Proves-continue engine c w.measured _ _ refl (λ s.
          Proves-continue engine c w.inspected _ _ refl
            (λ a3. Proves-write_proof engine c s _ refl refl)))))
