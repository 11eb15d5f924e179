-- ===== src/Http/Service/Coherence.antt =====
-- The adapter as a cache of the origin: what it serves is what the origin would.
use cachelib_grpc_server.Common.{
  ◌+◌, ℕ, String, ◌≡◌, refl, ◌∙◌, ◌⊎◌, inl, inr, Bool, true, false, Option, none, some, Result, ok,
  err, eqb, arith,
}
use cachelib_grpc_server.Http.Bodies.{Bytes}
use cachelib_grpc_server.Http.Service.{
  served, origin_get, Origin, Exchange, first, second, first_conn, fetch_origin, CacheService,
  reply_of_fill, store_if, fill, looked_up,
}

-- A response that `fetch_origin` returns is one that a connection gave.
second-gives :
    {exchange : Exchange} (conn : ℕ) (r : Result String (ℕ × Bytes)) (o : Origin) {a : ℕ × Bytes}
    → exchange 1 conn ≡ r
    → (second conn r o).0 ≡ ok a
    → (n : ℕ) × (k : ℕ) × (exchange n k ≡ ok a)
second-gives conn (ok r) o e h = (1, conn, e ∙ h)
second-gives conn (err t) o e h = cc

first-gives :
    (exchange : Exchange) (conn : ℕ) (r : Result String (ℕ × Bytes)) (o : Origin) {a : ℕ × Bytes}
    → exchange 0 conn ≡ r
    → (first exchange conn r o).0 ≡ ok a
    → (n : ℕ) × (k : ℕ) × (exchange n k ≡ ok a)
first-gives exchange conn (ok r) o e h = (0, conn, e ∙ h)
first-gives exchange conn (err t) o e h =
    second-gives o.opened (exchange 1 o.opened) (record o { opened = o.opened + 1 }) refl h

fetch_origin-gives :
    (exchange : Exchange) (o : Origin) {a : ℕ × Bytes}
    → (fetch_origin exchange o).0 ≡ ok a
    → (n : ℕ) × (k : ℕ) × (exchange n k ≡ ok a)
unfolding fetch_origin
fetch_origin-gives exchange o h =
    let (conn, o') = first_conn o.origin_conn o in
    first-gives exchange conn (exchange 0 conn) o' refl h

-- The origin answers the adapter's requests for a path as `do_GET` of the origin says.
abbrev pub IsOrigin : String → Exchange → Type 0
IsOrigin path exchange =
    (n conn : ℕ) (bytes : Bytes)
    → exchange n conn ≡ ok (200, bytes)
    → (origin_get path 0).0 ≡ served bytes "ORIGIN"

-- What the cache service promises, in terms of what it may hold: a value that is found was held, a
-- lookup adds nothing, and a store adds at most the stored value under its key. Entries may go.
pub record IsCache {C : Type 0} (cache : CacheService C) (Holds : C → String → Bytes → Type 0)
    : Type 0 where
  pub found : (k : String) (c : C) {v : Bytes} → (cache.get k c).0 ≡ ok (some v) → Holds c k v
  pub get_adds_nothing :
      (k : String) (c : C) (j : String) {w : Bytes} → Holds (cache.get k c).1 j w → Holds c j w
  pub set_adds :
      (k : String) (v : Bytes) (c : C) (j : String) {w : Bytes}
      → Holds (cache.set k v c).1 j w
      → Holds c j w ⊎ ((j ≡ k) × (w ≡ v))

module _ {C : Type 0} (cache : CacheService C) where
  reply_of_fill-served :
      {bytes b : Bytes} {tag : String} (s : Result String Bool × C)
      → (reply_of_fill cache bytes s).0 ≡ served b tag
      → bytes ≡ b
  reply_of_fill-served (ok true, c) h = cc
  reply_of_fill-served (ok false, c) h = cc
  reply_of_fill-served (err e, c) h = cc

  store_if-served :
      (key : String) (stored : Bool) (bytes : Bytes) (c : C) {b : Bytes} {tag : String}
      → (store_if cache stored key bytes c).0 ≡ served b tag
      → (stored ≡ true) × (bytes ≡ b)
  store_if-served key true bytes c h = (refl, reply_of_fill-served (cache.set key bytes c) h)
  store_if-served key false bytes c h = cc

  fill-served :
      (key : String) (r : Result String (ℕ × Bytes)) (c : C) {b : Bytes} {tag : String}
      → (fill cache key r c).0 ≡ served b tag
      → r ≡ ok (200, b)
  fill-served key (err e) c h = cc
  fill-served key (ok (status, bytes)) c h =
      let (found, same) = store_if-served key (eqb status 200) bytes c h in
      let ok_status : status ≡ 200 = ground arith in cc

  module _ (Holds : C → String → Bytes → Type 0) (laws : IsCache cache Holds) where
    reply_of_fill-holds :
        (bytes : Bytes) (s : Result String Bool × C) {j : String} {w : Bytes}
        → Holds (reply_of_fill cache bytes s).1 j w
        → Holds s.1 j w
    reply_of_fill-holds bytes (ok true, c) h = h
    reply_of_fill-holds bytes (ok false, c) h = h
    reply_of_fill-holds bytes (err e, c) h = h

    store_if-holds :
        (key : String) (stored : Bool) (bytes : Bytes) (c : C) (j : String) {w : Bytes}
        → Holds (store_if cache stored key bytes c).1 j w
        → Holds c j w ⊎ ((stored ≡ true) × ((j ≡ key) × (w ≡ bytes)))
    store_if-holds key false bytes c j h = inl h
    store_if-holds key true bytes c j h =
        elim (laws.set_adds key bytes c j (reply_of_fill-holds bytes (cache.set key bytes c) h)) [
          | inl old ↦ inl old
          | inr new ↦ inr (refl, new)
        ]

    fill-holds :
        (key : String) (r : Result String (ℕ × Bytes)) (c : C) (j : String) {w : Bytes}
        → Holds (fill cache key r c).1 j w
        → Holds c j w ⊎ ((j ≡ key) × (r ≡ ok (200, w)))
    fill-holds key (err e) c j h = inl h
    fill-holds key (ok (status, bytes)) c j {w} h =
        elim (store_if-holds key (eqb status 200) bytes c j h) [
          | inl old ↦ inl old
          | inr (found, (same, stored)) ↦
              let ok_status : status ≡ 200 = ground arith in inr (same, cc)
        ]

    pub looked_up-holds :
        (exchange : Exchange) (key : String) (o : Origin) (g : Result String (Option Bytes) × C)
        (j : String) {w : Bytes}
        → Holds (looked_up cache exchange key o g).1.0 j w
        → Holds g.1 j w ⊎ ((j ≡ key) × ((n : ℕ) × (k : ℕ) × (exchange n k ≡ ok (200, w))))
    looked_up-holds exchange key o (err e, c) j h = inl h
    looked_up-holds exchange key o (ok (some bytes), c) j h = inl h
    looked_up-holds exchange key o (ok none, c) j h =
        elim (fill-holds key (fetch_origin exchange o).0 c j h) [
          | inl old ↦ inl old
          | inr (same, given) ↦ inr (same, fetch_origin-gives exchange o given)
        ]

    pub looked_up-served :
        (exchange : Exchange) (key : String) (o : Origin) (g : Result String (Option Bytes) × C)
        {b : Bytes} {tag : String}
        → (looked_up cache exchange key o g).0 ≡ served b tag
        → (g.0 ≡ ok (some b)) ⊎ ((n : ℕ) × (k : ℕ) × (exchange n k ≡ ok (200, b)))
    looked_up-served exchange key o (err e, c) h = cc
    looked_up-served exchange key o (ok (some bytes), c) h = inl cc
    looked_up-served exchange key o (ok none, c) h =
        inr (fetch_origin-gives exchange o (fill-served key (fetch_origin exchange o).0 c h))
