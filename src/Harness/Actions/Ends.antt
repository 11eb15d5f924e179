-- ===== src/Harness/Actions/Ends.antt =====
-- Chains of actions that end with a value, taken apart.
use cachelib_grpc_server.Common.{
  ℕ, String, ◌≡◌, refl, ap, Bool, true, false, not, Result, ok, err, ok_injective,
}
use cachelib_grpc_server.Harness.Actions.{Action, continue, ◌>>=◌, raise_when}

err≢ok : {A : Type 0} {e : String} {a : A} → ◌≡◌ {A = Result String A} (err e) (ok a) → ⊥
err≢ok h = cc

module _ {C : Type 0} where
  pub raised-not :
      {A : Type 0} {e : String} {c d : C} {a : A}
      → ◌≡◌ {A = Result String A × C} (err e, c) (ok a, d)
      → ⊥
  raised-not h = err≢ok (ap (λ p. p.0) h)

  -- Inversion of a chain that ends with a value.
  continue-ok :
      {A B : Type 0} (r : Result String A) (f : A → Action C B) (c : C) {b : B} {c' : C}
      → continue r f c ≡ (ok b, c')
      → (a : A) × (r ≡ ok a) × (f a c ≡ (ok b, c'))
  continue-ok (ok a) f c h = (a, refl, h)
  continue-ok (err e) f c h = absurd (raised-not h)

  -- What a chain that ends with a value has gone through.
  abbrev pub Through : {A B : Type 0} → Action C A → (A → Action C B) → C → B → C → Type 0
  Through {A} m f c b c' = (a : A) × (d : C) × (m c ≡ (ok a, d)) × (f a d ≡ (ok b, c'))

  pub >>=-ok :
      {A B : Type 0} (m : Action C A) (f : A → Action C B) (c : C) {b : B} {c' : C}
      → (m >>= f) c ≡ (ok b, c')
      → Through m f c b c'
  >>=-ok m f c h =
      let (a, r, k) = continue-ok (m c).0 f (m c).1 h in (a, (m c).1, ap (λ r. (r, (m c).1)) r, k)

  pub require-ok :
      {B : Type 0} (b : Bool) (e : String) (f : Unit {0} → Action C B) (c : C) {x : B} {c' : C}
      → (raise_when (not b) e >>= f) c ≡ (ok x, c')
      → (b ≡ true) × (f tt c ≡ (ok x, c'))
  require-ok true e f c h = (refl, h)
  require-ok false e f c h = absurd (raised-not h)

  -- The same of an assertion that comes last.
  pub require-last :
      (b : Bool) (e : String) (c : C) {x : Unit {0}} {c' : C}
      → raise_when (not b) e c ≡ (ok x, c')
      → (b ≡ true) × (c ≡ c')
  require-last true e c h = (refl, ap (λ p. p.1) h)
  require-last false e c h = absurd (raised-not h)

  pub pure-same :
      (hits : C → ℕ) {A : Type 0} {a b : A} {c d : C}
      → ◌≡◌ {A = Result String A × C} (ok a, c) (ok b, d)
      → (a ≡ b) × (hits c ≡ hits d)
  pure-same hits h = (ok_injective (ap (λ p. p.0) h), ap (λ p. hits p.1) h)
