-- ===== src/Investigation/Limits/Outcome.antt =====
-- What the probes leave, however they end.
use cachelib_grpc_server.Common.{
  ℕ, zero, suc, ◌+◌, ◌<◌, String, ◌≡◌, refl, sym, ap, ◌∙◌, Bool, true, false, Bool-cases, inl, inr,
  ◌↔◌, Option, none, some, Result, ok, err, arith,
}
use cachelib_grpc_server.Harness.Actions.{continue, lift, modify, ◌>>◌}
use cachelib_grpc_server.Investigation.Limits.{
  World, Dir, fresh, await_healthy, with_server_command, with_client_command, with_result,
  with_manifest, with_log, without_server, without_network, cleanup, body, main,
}

-- The server is found healthy at one of the next looks.
abbrev pub HealthyIn : ℕ → ℕ → (ℕ → Bool) → Type 0
HealthyIn n i healthy = (k : ℕ) × (k < n) × (healthy (i + k) ≡ true)

later-HealthyIn :
    (n i : ℕ) (healthy : ℕ → Bool) → HealthyIn n (i + 1) healthy → HealthyIn (suc n) i healthy
later-HealthyIn n i healthy (k, l, found) = (k + 1, omega arith, ap healthy (omega arith) ∙ found)

not-now-HealthyIn :
    (n i : ℕ) (healthy : ℕ → Bool)
    → healthy i ≡ false
    → HealthyIn (suc n) i healthy
    → HealthyIn n (i + 1) healthy
not-now-HealthyIn n i healthy e (zero, l, found) =
    absurd (clash (sym (ap healthy (omega arith) ∙ e) ∙ found))
  where
    clash : false ≡ true → ⊥
    clash e = cc
not-now-HealthyIn n i healthy e (suc k, l, found) =
    (k, omega arith, ap healthy (omega arith) ∙ found)

await_healthy-HealthyIn :
    (n i : ℕ) (healthy : ℕ → Bool) → (await_healthy n i healthy ≡ ok tt) ↔ HealthyIn n i healthy
unfolding await_healthy
await_healthy-HealthyIn zero i healthy = (λ h. cc, λ (k, l, e). absurd (omega arith))
await_healthy-HealthyIn (suc n) i healthy =
    let (to, from) = await_healthy-HealthyIn n (i + 1) healthy in
    elim (Bool-cases (healthy i)) [
      | inl e ↦ rw e (λ h. (0, omega arith, ap healthy (omega arith) ∙ e), λ h. refl)
      | inr e ↦
          let back = not-now-HealthyIn n i healthy e in
          rw e (λ h. later-HealthyIn n i healthy (to h), λ h. from (back h))
    ]

-- The value that a chain of parts gives, if none of them raises.
abbrev pub after_ok : Result String (Unit {0}) → Option String → Option String
after_ok (ok u) o = o
after_ok (err e) o = none

abbrev pub of_ok : Result String String → (String → Option String) → Option String
of_ok (ok s) f = f s
of_ok (err e) f = none

-- Starting the server, finding it healthy, running the client and decoding what it prints.
abbrev pub answer : World → Option String
answer w = after_ok w.run (
    after_ok (await_healthy 30 0 w.healthy)
      (of_ok w.client (λ stdout. of_ok (w.decoded stdout) (λ json. some json))))

result-concluded :
    (r p : Result String (Unit {0})) (dir : Dir)
    → (continue r (λ u. modify with_manifest >> lift p) dir).1.result ≡ dir.result
result-concluded (ok u) p dir = refl
result-concluded (err e) p dir = refl

module _ (inspected printed : Result String (Unit {0})) where
  abbrev from_decoded : Result String String → Dir → Result String (Unit {0}) × Dir
  from_decoded r = continue r (λ json.
      modify (with_result json) >> (lift inspected >> (modify with_manifest >> lift printed)))

  result-decoded :
      (r : Result String String) (dir : Dir)
      → dir.result ≡ none
      → (from_decoded r dir).1.result ≡ of_ok r (λ json. some json)
  result-decoded (ok json) dir n = result-concluded inspected printed (with_result json dir)
  result-decoded (err e) dir n = n

  abbrev from_client :
      (String → Result String String) → Result String String → Dir → Result String (Unit {0}) × Dir
  from_client decoded r = continue r (λ stdout dir. from_decoded (decoded stdout) dir)

  result-client :
      (decoded : String → Result String String) (r : Result String String) (dir : Dir)
      → dir.result ≡ none
      → (from_client decoded r dir).1.result
        ≡ of_ok r (λ stdout. of_ok (decoded stdout) (λ json. some json))
  result-client decoded (ok stdout) dir n = result-decoded (decoded stdout) dir n
  result-client decoded (err e) dir n = n

  result-steps :
      (run ready : Result String (Unit {0})) (client : Result String String)
      (decoded : String → Result String String)
      → (continue run
          (λ u.
            modify with_client_command
            >> (λ dir. continue ready (λ v dir. from_client decoded client dir) dir))
          (with_server_command fresh)).1.result
        ≡ after_ok run
            (after_ok ready (of_ok client (λ stdout. of_ok (decoded stdout) (λ json. some json))))
  result-steps (err e) ready client decoded = refl
  result-steps (ok u) (err e) client decoded = refl
  result-steps (ok u) (ok v) client decoded = result-client decoded client _ refl

-- What is left of a run of the probes.
abbrev pub Leaves : World → Result String (Unit {0}) × Dir → Type 0
Leaves w out =
    (out.0 ≡ (body w fresh).0)
    × (out.1.logged ≡ true)
    × (out.1.server_removed ≡ true)
    × (out.1.network_removed ≡ true)
    × (out.1.result ≡ answer w)

-- The clean-up, where every call of it ends, and with status 0 where something is removed.
cleanup-ends :
    (w : World) (dir : Dir)
    → w.logs ≡ ok tt
    → w.stops ≡ ok tt
    → w.removes ≡ ok true
    → w.network_removes ≡ ok true
    → cleanup w dir ≡ (ok tt, without_network true (without_server true (with_log dir)))
unfolding cleanup
cleanup-ends w dir l s r n = rw (l, s, r, n) refl

-- Once the network is there, and where Docker gives the server's log, stops the server and removes the
-- server and the network: whatever the body raises, the program ends as its body does, the log is
-- written, and the server and the network are removed; result.json has the client's decoded output
-- where the server starts and turns healthy and the client ends with 0, and is not written otherwise.
-- The server counts as healthy exactly when it is at one of thirty looks.
pub main-Leaves :
    (w : World)
    → w.network ≡ ok tt
    → w.logs ≡ ok tt
    → w.stops ≡ ok tt
    → w.removes ≡ ok true
    → w.network_removes ≡ ok true
    → Leaves w (main w) × ((await_healthy 30 0 w.healthy ≡ ok tt) ↔ HealthyIn 30 0 w.healthy)
unfolding main body cleanup await_healthy
main-Leaves w n l s r k =
    let ran =
      result-steps w.inspected w.printed w.run (await_healthy 30 0 w.healthy) w.client w.decoded in
    (
      rw (n, cleanup-ends w (body w fresh).1 l s r k) (refl, refl, refl, refl, ran),
      await_healthy-HealthyIn 30 0 w.healthy,
    )
