-- ===== src/Client/Verify.antt =====
-- bench/investigation/client.py: the correctness probe (`verify`). Of the bytes that come back, only
-- which of the probe's own values they are counts.
pub mod Seen
pub mod Probes
use cachelib_grpc_server.Common.{
  ℕ, zero, suc, String, ◌==◌, Bool, true, false, not, ◌&&◌, ◌||◌, Option, none, some, List, [], ◌∷◌,
  eqb, is_some, if◌then◌else◌, Result, ok, err,
}
use cachelib_grpc_server.Campaign.Evidence.{Probe}
use cachelib_grpc_server.Harness.Actions.{
  Action, pure, raise, lift, continue, ◌>>=◌, ◌>>◌, raise_when,
}

-- The values of the probe, or other bytes.
pub data Value : Type 0 where
  binary overwritten two other : Value

pub data Key : Type 0 where
  probe_key batch_a batch_b pipe_key : Key

pub record Response : Type 0 where
  pub sequence_id : ℕ
  pub set_success : Bool
  pub get_value : Value
  pub delete_success : Bool

-- The backend, over the state of its cache, and a pause of a tenth of a second. The calls of several
-- objects are those of the probe.
pub record Cache (C : Type 0) : Type 0 where
  pub get : Key → C → Option Value × C
  pub set : Key → Value → ℕ → C → Bool × C
  pub delete : Key → C → Bool × C
  pub pause : C → C
  pub multi_set : List (Key × Value) → C → (ℕ × ℕ) × C
  pub multi_get : List Key → C → List (Key × Value) × C
  pub pipeline : C → List Response × C

abbrev pub same_value : Value → Value → Bool
same_value binary binary = true
same_value overwritten overwritten = true
same_value two two = true
same_value other v = false
same_value binary overwritten = false
same_value binary two = false
same_value binary other = false
same_value overwritten binary = false
same_value overwritten two = false
same_value overwritten other = false
same_value two binary = false
same_value two overwritten = false
same_value two other = false

abbrev pub is_value : Value → Option Value → Bool
is_value v none = false
is_value v (some w) = same_value v w

-- `[(x.key, x.value) for x in g.results] == items`
abbrev pub is_batch : List (Key × Value) → Bool
is_batch ((batch_a, v) ∷ (batch_b, w) ∷ []) = same_value binary v && same_value two w
is_batch items = false

abbrev pub is_pipeline : List Response → Bool
is_pipeline (r ∷ s ∷ t ∷ []) =
    eqb r.sequence_id 41 && (eqb s.sequence_id 42 && eqb t.sequence_id 43)
is_pipeline responses = false

abbrev pub is_answered : List Response → Bool
is_answered (r ∷ s ∷ t ∷ []) = r.set_success && (same_value binary s.get_value && t.delete_success)
is_answered responses = false

module _ {C : Type 0} where
  -- A call, which changes the state of the cache.
  unfoldable pub ask : {A : Type 0} → (C → A × C) → Action C A
  ask f c = let (a, next) = f c in (ok a, next)

  -- `assert test, message`
  abbrev pub require : Bool → String → Action C (Unit {0})
  require b message = raise_when (not b) message

  module _ (cache : Cache C) where
    -- The wait for the expiry, of `n` pauses at most in four seconds.
    unfoldable pub await_expiry : ℕ → Action C (Unit {0})
    await_expiry zero c = (ok tt, (cache.get probe_key c).1)
    await_expiry (suc n) c =
        let (found, next) = cache.get probe_key c in
        let rest = await_expiry n (cache.pause next) in
        if is_some found then rest else (ok tt, next)

    unfoldable pub basics : ℕ → Action C (Unit {0})
    unfolding await_expiry
    basics pauses = do
      deleted ← ask (cache.delete probe_key)
      absent ← ask (cache.get probe_key)
      require (not (is_some absent)) "miss"
      stored ← ask (cache.set probe_key binary 0)
      require stored "binary set"
      back ← ask (cache.get probe_key)
      require (is_value binary back) "binary round trip"
      again ← ask (cache.set probe_key overwritten 0)
      require again "overwrite"
      new ← ask (cache.get probe_key)
      require (is_value overwritten new) "overwrite read"
      removed ← ask (cache.delete probe_key)
      require removed "delete"
      gone ← ask (cache.get probe_key)
      require (not (is_some gone)) "deleted key"
      timed ← ask (cache.set probe_key binary 1)
      require timed "TTL set"
      await_expiry pauses
      expired ← ask (cache.get probe_key)
      require (not (is_some expired)) "TTL did not expire within 4 s (requested 1 s)"

    unfoldable pub batches : Action C (Unit {0})
    batches = do
      counts ← ask (cache.multi_set ((batch_a, binary) ∷ (batch_b, two) ∷ []))
      require (eqb counts.0 2 && eqb counts.1 0) "MultiSet"
      items ← ask (cache.multi_get (batch_a ∷ batch_b ∷ []))
      require (is_batch items) "MultiGet order/bytes"
      responses ← ask cache.pipeline
      require (is_pipeline responses) "Pipeline correlation/order"
      require (is_answered responses) ""

    abbrev with_batches : Action C Probe
    with_batches =
        batches >> pure (record { basic = some "passed"; batch_pipeline = some "passed" })

    abbrev pub after_basics : Bool → Action C Probe
    after_basics true = with_batches
    after_basics false = pure (record { basic = some "passed"; batch_pipeline = none })

    -- `kind` is the backend's; what the probe reports of the expiry's time is left out.
    unfoldable pub verify : String → ℕ → Action C Probe
    verify kind pauses = basics pauses >> after_basics (kind == "grpc")
