-- ===== src/Common/Lists.antt =====
-- Lists measured by native numbers, flattened maps, and predicates on all elements.
use Prim.Native.Nat.{ℕ, zero, suc, ◌+◌, ◌*◌}
use mathlib.Core.Path.{◌≡◌, refl, ap}
use mathlib.Core.Logic.{◌⊎◌, inl, inr}
use mathlib.Core.Bool.{Bool, true, false, ◌&&◌, ◌||◌}
use mathlib.Core.List.{List, [], ◌∷◌, ◌++◌, map}
use mathlib.Core.Option.{Option, none, some}
use native.Mathlib.Omega.{arith}

module _ {ℓ} {A : Type ℓ} where
  abbrev pub length : List A → ℕ
  length [] = 0
  length (x ∷ xs) = suc (length xs)

  abbrev pub is_empty : List A → Bool
  is_empty [] = true
  is_empty (x ∷ xs) = false

  abbrev pub get_elem? : List A → ℕ → Option A
  get_elem? [] i = none
  get_elem? (x ∷ xs) zero = some x
  get_elem? (x ∷ xs) (suc i) = get_elem? xs i

  abbrev pub all_b : (A → Bool) → List A → Bool
  all_b p [] = true
  all_b p (x ∷ xs) = p x && all_b p xs

  abbrev pub any_b : (A → Bool) → List A → Bool
  any_b p [] = false
  any_b p (x ∷ xs) = p x || any_b p xs

  pub length-append : (xs ys : List A) → length (xs ++ ys) ≡ length xs + length ys
  length-append [] ys = omega arith
  length-append (x ∷ xs) ys = omega (arith, length-append xs ys)

-- What holds of every element, and a place where an element stands, both as data.
module _ {ℓ κ} {A : Type ℓ} where
  abbrev pub All : (A → Type κ) → List A → Type κ
  All P [] = Unit
  All P (x ∷ xs) = P x × All P xs

module _ {ℓ} {A : Type ℓ} where
  pub data Place (a : A) : List A → Type ℓ where
    here : {xs : List A} → Place a (a ∷ xs)
    there : {x : A} {xs : List A} → Place a xs → Place a (x ∷ xs)

module _ {ℓ κ} {A : Type ℓ} (P : A → Type κ) where
  pub All-place : (xs : List A) {a : A} → All P xs → Place a xs → P a
  All-place [] h m = elim m [ ]
  All-place (x ∷ xs) h here = h.0
  All-place (x ∷ xs) h (there m) = All-place xs h.1 m

  pub All-append : (xs ys : List A) → All P xs → All P ys → All P (xs ++ ys)
  All-append [] ys h k = k
  All-append (x ∷ xs) ys h k = (h.0, All-append xs ys h.1 k)

module _ {ℓ κ ν} {A : Type ℓ} (P : A → Type κ) (Q : A → Type ν) where
  pub All-weaken : (xs : List A) → ((x : A) → P x → Q x) → All P xs → All Q xs
  All-weaken [] w h = tt
  All-weaken (x ∷ xs) w h = (w x h.0, All-weaken xs w h.1)

module _ {ℓ κ} {A : Type ℓ} {B : Type κ} where
  abbrev pub concat_map : (A → List B) → List A → List B
  concat_map f [] = []
  concat_map f (x ∷ xs) = f x ++ concat_map f xs

  pub length-map : (xs : List A) (f : A → B) → length (map f xs) ≡ length xs
  length-map [] f = refl
  length-map (x ∷ xs) f = ap suc (length-map xs f)

  -- Lists of one length for every element are laid end to end.
  pub length-concat_map :
      (f : A → List B) (n : ℕ)
      → ((a : A) → length (f a) ≡ n)
      → (xs : List A) → length (concat_map f xs) ≡ length xs * n
  length-concat_map f n h [] = omega arith
  length-concat_map f n h (x ∷ xs) =
      omega (arith, length-append (f x) (concat_map f xs), h x, length-concat_map f n h xs)

module _ {ℓ} {A : Type ℓ} where
  pub Place-append_left : {a : A} (xs ys : List A) → Place a xs → Place a (xs ++ ys)
  Place-append_left [] ys m = elim m [ ]
  Place-append_left (x ∷ xs) ys here = here
  Place-append_left (x ∷ xs) ys (there m) = there (Place-append_left xs ys m)

  pub Place-append_right : {a : A} (xs ys : List A) → Place a ys → Place a (xs ++ ys)
  Place-append_right [] ys m = m
  Place-append_right (x ∷ xs) ys m = there (Place-append_right xs ys m)

module _ {ℓ} {A : Type ℓ} where
  pub Place-cons-inv : {x a : A} {xs : List A} → Place a (x ∷ xs) → (x ≡ a) ⊎ Place a xs
  Place-cons-inv here = inl refl
  Place-cons-inv (there m) = inr m

  pub Place-append-inv : {a : A} (xs ys : List A) → Place a (xs ++ ys) → Place a xs ⊎ Place a ys
  Place-append-inv [] ys m = inr m
  Place-append-inv (x ∷ xs) ys here = inl here
  Place-append-inv (x ∷ xs) ys (there m) = elim (Place-append-inv xs ys m) [
    | inl p ↦ inl (there p)
    | inr p ↦ inr p
  ]

module _ {ℓ κ} {A : Type ℓ} {B : Type κ} where
  pub Place-map : {a : A} (f : A → B) (xs : List A) → Place a xs → Place (f a) (map f xs)
  Place-map f [] m = elim m [ ]
  Place-map f (x ∷ xs) here = here
  Place-map f (x ∷ xs) (there m) = there (Place-map f xs m)

  pub Place-concat_map :
      {a : A} {b : B} (f : A → List B) (xs : List A)
      → Place a xs
      → Place b (f a)
      → Place b (concat_map f xs)
  Place-concat_map f [] p m = elim p [ ]
  Place-concat_map f (x ∷ xs) here m = Place-append_left (f x) (concat_map f xs) m
  Place-concat_map f (x ∷ xs) (there p) m =
      Place-append_right (f x) (concat_map f xs) (Place-concat_map f xs p m)

  pub Place-map-inv :
      {b : B} (f : A → B) (xs : List A) → Place b (map f xs) → (a : A) × Place a xs × (f a ≡ b)
  Place-map-inv f [] m = elim m [ ]
  Place-map-inv f (x ∷ xs) m = elim (Place-cons-inv m) [
    | inl e ↦ (x, here, e)
    | inr p ↦ let (a, q, e) = Place-map-inv f xs p in (a, there q, e)
  ]

  pub Place-concat_map-inv :
      {b : B} (f : A → List B) (xs : List A)
      → Place b (concat_map f xs)
      → (a : A) × Place a xs × Place b (f a)
  Place-concat_map-inv f [] m = elim m [ ]
  Place-concat_map-inv f (x ∷ xs) m = elim (Place-append-inv (f x) (concat_map f xs) m) [
    | inl p ↦ (x, here, p)
    | inr p ↦ let (a, q, r) = Place-concat_map-inv f xs p in (a, there q, r)
  ]
