-- ===== src/Client/Batch/Groups.antt =====
-- How a trace is cut into groups.
use cachelib_grpc_server.Common.{
  ℕ, zero, suc, ◌+◌, ◌-◌, ◌≤◌, ◌<◌, ◌*◌, min, ◌≡◌, refl, ap, ◌∙◌, List, [], ◌∷◌, ◌++◌, length,
  concat_map, ok, All, arith,
}
use native.Mathlib.Nat.{suc-mul}
use cachelib_grpc_server.Client.Run.{take, drop}
use cachelib_grpc_server.Client.Batch.{groups_of, groups, Call, Reply, Report, batch}

take-drop : (k : ℕ) (is : List ℕ) → take k is ++ drop k is ≡ is
take-drop zero is = refl
take-drop (suc k) [] = refl
take-drop (suc k) (i ∷ is) = ap (λ t. i ∷ t) (take-drop k is)

length-drop : (k : ℕ) (is : List ℕ) → length (drop k is) ≡ length is - k
length-drop zero is = omega arith
length-drop (suc k) [] = omega arith
length-drop (suc k) (i ∷ is) = let e = length-drop k is in omega arith

length-take : (k : ℕ) (is : List ℕ) → length (take k is) ≡ min k (length is)
length-take zero is = omega arith
length-take (suc k) [] = omega arith
length-take (suc k) (i ∷ is) = let e = length-take k is in omega arith

-- One more group holds `n + 1` objects more, where `d` objects are left after it.
enough_step : (m n l d : ℕ) → d ≡ l - n → d ≤ m * suc n → suc l ≤ suc m * suc n
enough_step m n l d e h = let product = suc-mul m (suc n) in omega arith

few_step : (m n l d : ℕ) → d ≡ l - n → m * suc n < d + suc n → suc m * suc n < suc l + suc n
few_step zero n l d e h = let product = suc-mul zero (suc n) in omega arith
few_step (suc m) n l d e h =
    let product = suc-mul (suc m) (suc n) in let before = suc-mul m (suc n) in omega arith

-- Enough fuel cuts the whole trace into groups that are not empty and of the size at most.
abbrev pub HasSize : ℕ → List ℕ → Type 0
HasSize size keys = (1 ≤ length keys) × (length keys ≤ size)

groups_of-whole :
    (n fuel : ℕ) (trace : List ℕ)
    → length trace ≤ fuel
    → (concat_map (λ keys. keys) (groups_of (suc n) fuel trace) ≡ trace)
      × All (HasSize (suc n)) (groups_of (suc n) fuel trace)
      × (length trace ≤ length (groups_of (suc n) fuel trace) * suc n)
      × (length (groups_of (suc n) fuel trace) * suc n < length trace + suc n)
groups_of-whole n zero [] h = (refl, tt, omega arith, omega arith)
groups_of-whole n zero (i ∷ is) h = absurd (omega arith)
groups_of-whole n (suc fuel) [] h = (refl, tt, omega arith, omega arith)
groups_of-whole n (suc fuel) (i ∷ is) h =
    let dropped = length-drop n is in
    let taken = length-take n is in
    let (whole, sizes, enough, few) = groups_of-whole n fuel (drop n is) (omega arith) in
    (
      ap (λ t. (i ∷ take n is) ++ t) whole ∙ ap (λ t. i ∷ t) (take-drop n is),
      ((omega arith, omega arith), sizes),
      enough_step (length (groups_of (suc n) fuel (drop n is))) n (length is) (length (drop n is))
          dropped enough,
      few_step (length (groups_of (suc n) fuel (drop n is))) n (length is) (length (drop n is))
          dropped few,
    )

-- With groups of one object or more, the cutting of a trace ends: its groups put together are the
-- trace, none of them is empty or larger than asked for, and no fewer of them would do. The report
-- counts every object and every group.
pub batch-IsCut :
    (kind : Call) (n : ℕ) (ask : List ℕ → Reply) (trace : List ℕ)
    → (cut : List (List ℕ)) × (r : Report) × (groups (suc n) trace ≡ ok cut)
      × (batch kind (suc n) ask trace ≡ ok r)
      × (concat_map (λ keys. keys) cut ≡ trace)
      × All (HasSize (suc n)) cut
      × (r.operations ≡ length trace)
      × (r.batches ≡ length cut)
      × (length trace ≤ r.batches * suc n)
      × (r.batches * suc n < length trace + suc n)
unfolding batch groups
batch-IsCut kind n ask trace =
    let (whole, sizes, enough, few) = groups_of-whole n (length trace) trace (omega arith) in
    (groups_of (suc n) (length trace) trace, _, refl, refl, whole, sizes, refl, refl, enough, few)
