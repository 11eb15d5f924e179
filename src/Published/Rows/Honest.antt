-- ===== src/Published/Rows/Honest.antt =====
-- What a percentage of a report says.
use native.Mathlib.Nat.{div-lt_iff_lt-mul}
use cachelib_grpc_server.Common.{
  ℕ, zero, suc, ◌*◌, ◌/◌, ◌^◌, ◌<◌, ◌≤◌, ◌≡◌, ltb, eqb, arith, some, true, Bool-cases, inl, inr,
  ◌≢◌, ltb→lt,
}
use cachelib_grpc_server.Reports.Floats.{round}
use cachelib_grpc_server.Published.Rows.{percentage, below_hundred, percent}

round_le : (num den k : ℕ) → num < k * den → round num den ≤ k
unfolding round
round_le num zero k h = absurd (omega arith)
round_le num (suc den) k h =
    let small : num / suc den < k =
      (div-lt_iff_lt-mul {k = suc den} {x = num} {y = k} (omega arith)).1 h in
    ground arith

lt→ltb : {a b : ℕ} → a < b → ltb a b ≡ true
lt→ltb h = ground arith

digits_of : {a b c d : ℕ} → percentage a b ≡ percentage c d → (a ≡ c) × (b ≡ d)
digits_of h = (cc, cc)

-- A ratio between 0 and 1, the ends left out, never reads 100%: with one place or with three, the
-- digits stay below those of a hundred.
pub percent-below :
    (den v digits places : ℕ)
    → 0 < v
    → v < den
    → percent den (some v) ≡ percentage digits places
    → digits < 100 * 10 ^ places
unfolding percent
percent-below den v digits places h k e = elim (Bool-cases (eqb (round (v * 1000) den) 1000)) [
  | inl full ↦ elim (Bool-cases (ltb (round (v * 100000) den) 100000)) [
    | inl less ↦
        let (digits_are, places_are) = digits_of (rw (lt→ltb h, lt→ltb k, full, less) at e) in
        rw (← places_are) (let small = ltb→lt _ _ less in omega arith)
    | inr more ↦ absurd (hidden (rw (lt→ltb h, lt→ltb k, full, more) at e))
  ]
  | inr other ↦
      let (digits_are, places_are) = digits_of (rw (lt→ltb h, lt→ltb k, other) at e) in
      let small = round_le (v * 1000) den 1000 (omega arith) in
      let unequal : round (v * 1000) den ≢ 1000 = ground arith in rw (← places_are) (omega arith)
]
  where
    hidden : below_hundred ≡ percentage digits places → ⊥
    hidden e = cc
