-- ===== src/Client/Verify/Seen.antt =====
-- What the probe of bench/investigation/client.py asks a cache, with the answers that it needs.
use cachelib_grpc_server.Common.{
  ℕ, ◌≡◌, refl, ap, ◌∙◌, Bool, true, false, not, ◌&&◌, Option, none, some, List, [], ◌∷◌, eqb,
  is_some, arith,
}
use cachelib_grpc_server.Client.Verify.{
  Cache, Value, binary, overwritten, two, other, Key, probe_key, batch_a, batch_b, pipe_key,
  Response, same_value, is_value, is_batch,
}

-- A question to the cache with the answer to it.
pub data Event : Type 0 where
  asked_delete missing removed : Key → Event
  stored : Key → Value → ℕ → Event
  found : Key → Value → Event
  -- reads of a key with pauses between them
  waited : Key → Event
  -- both objects stored and none failed, and both read back in order
  stored_all read_all : List (Key × Value) → Event
  -- a store, a read and a removal in one stream, answered in order under their numbers
  piped : Value → Event

module _ {C : Type 0} (cache : Cache C) where
  -- Reads of a key, the last of which follows the last pause.
  pub data Waits (k : Key) : C → C → Type 0 where
    last : (c : C) → Waits k c (cache.get k c).1
    more : (c : C) {d : C} → Waits k (cache.pause (cache.get k c).1) d → Waits k c d

  -- The cache, in the state `c`, answers so and is in the state `d` after it.
  abbrev pub Says : C → Event → C → Type 0
  Says c (asked_delete k) d = (cache.delete k c).1 ≡ d
  Says c (missing k) d = cache.get k c ≡ (none, d)
  Says c (removed k) d = cache.delete k c ≡ (true, d)
  Says c (stored k v ttl) d = cache.set k v ttl c ≡ (true, d)
  Says c (found k v) d = cache.get k c ≡ (some v, d)
  Says c (waited k) d = Waits k c d
  Says c (stored_all items) d = cache.multi_set items c ≡ ((2, 0), d)
  Says c (read_all items) d = cache.multi_get (map_keys items) c ≡ (items, d)
    where
      map_keys : List (Key × Value) → List Key
      map_keys [] = []
      map_keys ((k, v) ∷ items) = k ∷ map_keys items
  Says c (piped v) d =
      (r : Response) × (s : Response) × (t : Response) × (cache.pipeline c ≡ (r ∷ s ∷ t ∷ [], d))
      × ((r.sequence_id ≡ 41) × (s.sequence_id ≡ 42) × (t.sequence_id ≡ 43))
      × ((r.set_success ≡ true) × (s.get_value ≡ v) × (t.delete_success ≡ true))

  abbrev pub Sees : C → List Event → C → Type 0
  Sees c [] d = c ≡ d
  Sees c (e ∷ es) d = (m : C) × Says c e m × Sees m es d

abbrev pub items : List (Key × Value)
items = (batch_a, binary) ∷ (batch_b, two) ∷ []

-- What a probe has to see: of one key, and of several objects at once where the cache is gRPC's.
abbrev pub basics_seen : List Event
basics_seen =
    asked_delete probe_key
    ∷ missing probe_key
    ∷ stored probe_key binary 0
    ∷ found probe_key binary
    ∷ stored probe_key overwritten 0
    ∷ found probe_key overwritten
    ∷ removed probe_key
    ∷ missing probe_key
    ∷ stored probe_key binary 1
    ∷ waited probe_key
    ∷ missing probe_key
    ∷ []

abbrev pub batches_seen : Bool → List Event
batches_seen true = stored_all items ∷ read_all items ∷ piped binary ∷ []
batches_seen false = []

pub absent-none : (o : Option Value) → not (is_some o) ≡ true → o ≡ none
absent-none none h = refl
absent-none (some v) h = cc

pub same-binary : (v : Value) → same_value binary v ≡ true → v ≡ binary
same-binary binary h = refl
same-binary overwritten h = cc
same-binary two h = cc
same-binary other h = cc

same-two : (v : Value) → same_value two v ≡ true → v ≡ two
same-two two h = refl
same-two binary h = cc
same-two overwritten h = cc
same-two other h = cc

same-overwritten : (v : Value) → same_value overwritten v ≡ true → v ≡ overwritten
same-overwritten overwritten h = refl
same-overwritten binary h = cc
same-overwritten two h = cc
same-overwritten other h = cc

pub and-true : (a b : Bool) → a && b ≡ true → (a ≡ true) × (b ≡ true)
and-true true b h = (refl, h)
and-true false b h = cc

pub is_value-binary : (o : Option Value) → is_value binary o ≡ true → o ≡ some binary
is_value-binary none h = cc
is_value-binary (some v) h = ap (λ v. some v) (same-binary v h)

pub is_value-overwritten : (o : Option Value) → is_value overwritten o ≡ true → o ≡ some overwritten
is_value-overwritten none h = cc
is_value-overwritten (some v) h = ap (λ v. some v) (same-overwritten v h)

pub both_stored : (n : ℕ × ℕ) → eqb n.0 2 && eqb n.1 0 ≡ true → n ≡ (2, 0)
both_stored (a, b) h =
    let e : a ≡ 2 = ground arith in
    let f : b ≡ 0 = ground arith in ap (λ x. (x, b)) e ∙ ap (λ y. (2, y)) f

pub is_batch-items : (xs : List (Key × Value)) → is_batch xs ≡ true → xs ≡ items
is_batch-items [] h = cc
is_batch-items ((probe_key, v) ∷ xs) h = cc
is_batch-items ((batch_b, v) ∷ xs) h = cc
is_batch-items ((pipe_key, v) ∷ xs) h = cc
is_batch-items ((batch_a, v) ∷ []) h = cc
is_batch-items ((batch_a, v) ∷ (probe_key, w) ∷ xs) h = cc
is_batch-items ((batch_a, v) ∷ (batch_a, w) ∷ xs) h = cc
is_batch-items ((batch_a, v) ∷ (pipe_key, w) ∷ xs) h = cc
is_batch-items ((batch_a, v) ∷ (batch_b, w) ∷ x ∷ xs) h = cc
is_batch-items ((batch_a, v) ∷ (batch_b, w) ∷ []) h =
    let (first, second) = and-true (same_value binary v) (same_value two w) h in
    ap (λ x. (batch_a, x) ∷ (batch_b, w) ∷ []) (same-binary v first)
    ∙ ap (λ y. (batch_a, binary) ∷ (batch_b, y) ∷ []) (same-two w second)
