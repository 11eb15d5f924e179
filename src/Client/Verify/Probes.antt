-- ===== src/Client/Verify/Probes.antt =====
-- What the probe has seen when it reports, and what the validation of a campaign makes of its report.
use cachelib_grpc_server.Common.{
  ℕ, zero, suc, String, ◌==◌, ◌≡◌, refl, sym, ap, ◌∙◌, subst, Bool, true, false, not, ◌&&◌,
  Bool-cases, inl, inr, List, [], ◌∷◌, ◌++◌, eqb, is_some, starts_with, ok, arith, ok_injective,
}
use cachelib_grpc_server.Campaign.Evidence.{Probe}
use cachelib_grpc_server.Campaign.Validate.{probe_passed}
use cachelib_grpc_server.Harness.Actions.{Action, ◌>>=◌, ◌>>◌}
use cachelib_grpc_server.Harness.Actions.Ends.{>>=-ok, require-ok, require-last}
use cachelib_grpc_server.Client.Verify.{
  Cache, binary, overwritten, probe_key, batch_a, batch_b, Response, same_value, is_value, is_batch,
  is_pipeline, is_answered, ask, require, await_expiry, basics, batches, after_basics, verify,
}
use cachelib_grpc_server.Client.Verify.Seen.{
  Event, piped, Waits, last, more, Says, Sees, items, basics_seen, batches_seen, absent-none,
  is_value-binary, is_value-overwritten, same-binary, both_stored, is_batch-items, and-true,
}

module _ {C : Type 0} where
  ask-eq : {A : Type 0} (f : C → A × C) (c : C) {a : A} {d : C} → ask f c ≡ (ok a, d) → f c ≡ (a, d)
  unfolding ask
  ask-eq f c {a} h =
      ap (λ x. (x, (f c).1)) (ok_injective (ap (λ p. p.0) h)) ∙ ap (λ y. (a, y)) (ap (λ p. p.1) h)

  -- A question and the test of its answer, in a chain that ends with a value.
  step :
      {A B : Type 0} (f : C → A × C) (t : A → Bool) (e : String) (next : Action C B) (c : C) {b : B}
      {d : C}
      → (ask f >>= λ a. require (t a) e >> next) c ≡ (ok b, d)
      → (a : A) × (m : C) × (f c ≡ (a, m)) × (t a ≡ true) × (next m ≡ (ok b, d))
  step f t e next c h =
      let (a, m, asked, h1) = >>=-ok (ask f) _ c h in
      let (holds, h2) = require-ok (t a) e _ m h1 in (a, m, ask-eq f c asked, holds, h2)

  last_step :
      {A : Type 0} (f : C → A × C) (t : A → Bool) (e : String) (c : C) {d : C}
      → (ask f >>= λ a. require (t a) e) c ≡ (ok tt, d)
      → (a : A) × (f c ≡ (a, d)) × (t a ≡ true)
  last_step f t e c h =
      let (a, m, asked, h1) = >>=-ok (ask f) _ c h in
      let (holds, same) = require-last (t a) e m h1 in
      (a, ask-eq f c asked ∙ ap (λ s. (a, s)) same, holds)

module _ {C : Type 0} (cache : Cache C) where
  piped-in :
      (rs : List Response) {c d : C}
      → cache.pipeline c ≡ (rs, d)
      → is_pipeline rs ≡ true
      → is_answered rs ≡ true
      → Says cache c (piped binary) d
  piped-in [] e h k = cc
  piped-in (r ∷ []) e h k = cc
  piped-in (r ∷ s ∷ []) e h k = cc
  piped-in (r ∷ s ∷ t ∷ u ∷ rs) e h k = cc
  piped-in (r ∷ s ∷ t ∷ []) e h k =
      let (done, rest) = and-true r.set_success _ k in
      let (read, gone) = and-true (same_value binary s.get_value) t.delete_success rest in
      (
        r,
        s,
        t,
        e,
        (ground arith, ground arith, ground arith),
        (done, same-binary s.get_value read, gone),
      )

  -- The answer to a question, where it is known.
  abbrev answered : {A : Type 0} {r : A × C} {a b : A} {m : C} → r ≡ (a, m) → a ≡ b → r ≡ (b, m)
  answered {m} h e = h ∙ ap (λ a. (a, m)) e

  await_expiry-Waits :
      (n : ℕ) (c : C) {d : C} → await_expiry cache n c ≡ (ok tt, d) → Waits cache probe_key c d
  unfolding await_expiry
  await_expiry-Waits zero c h = subst (Waits cache probe_key c) (ap (λ p. p.1) h) (last c)
  await_expiry-Waits (suc n) c {d} h = elim (Bool-cases (is_some (cache.get probe_key c).0)) [
    | inl e ↦ more c (await_expiry-Waits n (cache.pause (cache.get probe_key c).1) (rw e at h))
    | inr e ↦ subst (Waits cache probe_key c) (ap (λ p. p.1) (rw e at h)) (last c)
  ]

  basics-Sees :
      (pauses : ℕ) (c : C) {d : C} → basics cache pauses c ≡ (ok tt, d) → Sees cache c basics_seen d
  unfolding basics
  basics-Sees pauses c h =
      let (u0, c1, e0, h1) = >>=-ok (ask (cache.delete probe_key)) _ c h in
      let (a1, c2, e1, t1, h2) = step (cache.get probe_key) (λ o. not (is_some o)) _ _ c1 h1 in
      let (a2, c3, e2, t2, h3) = step (cache.set probe_key binary 0) (λ b. b) _ _ c2 h2 in
      let (a3, c4, e3, t3, h4) = step (cache.get probe_key) (is_value binary) _ _ c3 h3 in
      let (a4, c5, e4, t4, h5) = step (cache.set probe_key overwritten 0) (λ b. b) _ _ c4 h4 in
      let (a5, c6, e5, t5, h6) = step (cache.get probe_key) (is_value overwritten) _ _ c5 h5 in
      let (a6, c7, e6, t6, h7) = step (cache.delete probe_key) (λ b. b) _ _ c6 h6 in
      let (a7, c8, e7, t7, h8) = step (cache.get probe_key) (λ o. not (is_some o)) _ _ c7 h7 in
      let (a8, c9, e8, t8, h9) = step (cache.set probe_key binary 1) (λ b. b) _ _ c8 h8 in
      let (u9, c10, e9, h10) = >>=-ok (await_expiry cache pauses) _ c9 h9 in
      let (a10, e10, t10) = last_step (cache.get probe_key) (λ o. not (is_some o)) _ c10 h10 in
      (
        c1,
        ap (λ p. p.1) (ask-eq (cache.delete probe_key) c e0),
        (
          c2,
          answered e1 (absent-none a1 t1),
          (
            c3,
            answered e2 t2,
            (
              c4,
              answered e3 (is_value-binary a3 t3),
              (
                c5,
                answered e4 t4,
                (
                  c6,
                  answered e5 (is_value-overwritten a5 t5),
                  (
                    c7,
                    answered e6 t6,
                    (
                      c8,
                      answered e7 (absent-none a7 t7),
                      (
                        c9,
                        answered e8 t8,
                        (
                          c10,
                          await_expiry-Waits pauses c9 e9,
                          (_, answered e10 (absent-none a10 t10), refl),
                        ),
                      ),
                    ),
                  ),
                ),
              ),
            ),
          ),
        ),
      )

  batches-Sees : (c : C) {d : C} → batches cache c ≡ (ok tt, d) → Sees cache c (batches_seen true) d
  unfolding batches
  batches-Sees c h =
      let (n, c1, e1, t1, h1) =
        step (cache.multi_set items) (λ n. eqb n.0 2 && eqb n.1 0) _ _ c h in
      let (xs, c2, e2, t2, h2) =
        step (cache.multi_get (batch_a ∷ batch_b ∷ [])) is_batch _ _ c1 h1 in
      let (rs, c3, e3, h3) = >>=-ok (ask cache.pipeline) _ c2 h2 in
      let (t3, h4) = require-ok (is_pipeline rs) "Pipeline correlation/order" _ c3 h3 in
      let (t4, same) = require-last (is_answered rs) "" c3 h4 in
      (
        c1,
        answered e1 (both_stored n t1),
        (
          c2,
          answered e2 (is_batch-items xs t2),
          (c3, piped-in rs (ask-eq cache.pipeline c2 e3) t3 t4, same),
        ),
      )

  Sees-append :
      (es fs : List Event) (c m d : C)
      → Sees cache c es m
      → Sees cache m fs d
      → Sees cache c (es ++ fs) d
  Sees-append [] fs c m d h k = subst (λ x. Sees cache x fs d) (sym h) k
  Sees-append (e ∷ es) fs c m d (n, says, h) k = (n, says, Sees-append es fs n m d h k)

  after_basics-Sees :
      (engine : String) (b : Bool) (c : C) {d : C} {p : Probe}
      → b ≡ starts_with "grpc" engine
      → after_basics cache b c ≡ (ok p, d)
      → Sees cache c (batches_seen b) d × (probe_passed engine p ≡ true)
  unfolding probe_passed
  after_basics-Sees engine true c {d} {p} e h =
      let (u, m, ran, h1) = >>=-ok (batches cache) _ c h in
      let reported = ok_injective (ap (λ p. p.0) h1) in
      (
        subst (Sees cache c (batches_seen true)) (ap (λ p. p.1) h1) (batches-Sees c ran),
        subst (λ p. probe_passed engine p ≡ true) reported (rw (← e) refl),
      )
  after_basics-Sees engine false c e h =
      let reported = ok_injective (ap (λ p. p.0) h) in
      (ap (λ p. p.1) h, subst (λ p. probe_passed engine p ≡ true) reported (rw (← e) refl))

  -- Where the client is told the kind gRPC for the engines that the validation takes for such, a probe
  -- that reports has seen the answers that it asks for, one after another and of one cache: a key that
  -- is gone after its removal, both values as they were stored, and the expiry of the last one; and of
  -- gRPC the calls of several objects besides. What it reports is a probe that the validation accepts.
  pub verify-Sees :
      (engine kind : String) (pauses : ℕ) (c : C) {d : C} {p : Probe}
      → (kind == "grpc") ≡ starts_with "grpc" engine
      → verify cache kind pauses c ≡ (ok p, d)
      → Sees cache c (basics_seen ++ batches_seen (starts_with "grpc" engine)) d
        × (probe_passed engine p ≡ true)
  unfolding verify
  verify-Sees engine kind pauses c {d} e h =
      let (u, m, ran, h1) = >>=-ok (basics cache pauses) _ c h in
      let (then_seen, passed) = after_basics-Sees engine (kind == "grpc") m e h1 in
      (
        Sees-append basics_seen (batches_seen (starts_with "grpc" engine)) c m d
            (basics-Sees pauses c ran) (subst (λ b. Sees cache m (batches_seen b) d) e then_seen),
        passed,
      )
