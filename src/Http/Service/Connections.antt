-- ===== src/Http/Service/Connections.antt =====
-- bench/strong/http_service.py: the adapter's connections to the origin (`fetch_origin`).
use cachelib_grpc_server.Common.{
  ℕ, ◌+◌, ◌≤◌, ◌<◌, String, ◌≡◌, refl, ◌∙◌, Option, none, some, Result, ok, err, arith,
}
use cachelib_grpc_server.Http.Bodies.{Bytes}
use cachelib_grpc_server.Http.Service.{Origin, Exchange, first, second, first_conn, fetch_origin}

-- The connection that is kept has been opened.
abbrev pub IsOpened : Option ℕ → ℕ → Type 0
IsOpened none opened = Unit
IsOpened (some conn) opened = conn < opened

-- The attempt that gave a response, on the connection that is kept from then on.
abbrev pub Kept : Exchange → Origin → ℕ × Bytes → Type 0
Kept exchange o a =
    (n : ℕ) × (conn : ℕ) × (n < 2)
    × (o.origin_conn ≡ some conn)
    × (conn < o.opened)
    × (exchange n conn ≡ ok a)

abbrev reopened : Origin → Origin
reopened o = record o { opened = o.opened + 1 }

second-Kept :
    (exchange : Exchange) (r : Result String (ℕ × Bytes)) (o : Origin) {a : ℕ × Bytes}
    → exchange 1 o.opened ≡ r
    → (second o.opened r (reopened o)).0 ≡ ok a
    → Kept exchange (second o.opened r (reopened o)).1 a
second-Kept exchange (ok r) o e h = (1, o.opened, omega arith, refl, omega arith, e ∙ h)
second-Kept exchange (err t) o e h = cc

first-Kept :
    (exchange : Exchange) (conn : ℕ) (r : Result String (ℕ × Bytes)) (o : Origin) {a : ℕ × Bytes}
    → exchange 0 conn ≡ r
    → conn < o.opened
    → (first exchange conn r o).0 ≡ ok a
    → Kept exchange (first exchange conn r o).1 a
first-Kept exchange conn (ok r) o e l h = (0, conn, omega arith, refl, l, e ∙ h)
first-Kept exchange conn (err t) o e l h = second-Kept exchange (exchange 1 o.opened) o refl h

first_conn-Kept :
    (exchange : Exchange) (kept : Option ℕ) (o : Origin) {a : ℕ × Bytes}
    → IsOpened kept o.opened
    → (first exchange
        (first_conn kept o).0
        (exchange 0 (first_conn kept o).0)
        (first_conn kept o).1).0
      ≡ ok a
    → Kept exchange
        (first exchange
          (first_conn kept o).0
          (exchange 0 (first_conn kept o).0)
          (first_conn kept o).1).1
        a
first_conn-Kept exchange none o l h =
    first-Kept exchange o.opened (exchange 0 o.opened) (reopened o) refl (omega arith) h
first_conn-Kept exchange (some conn) o l h = first-Kept exchange conn (exchange 0 conn) o refl l h

-- A response that the adapter gets from the origin came in one of two attempts, on a connection that
-- was opened and that is the one kept for the next object.
pub fetch_origin-Kept :
    (exchange : Exchange) (o : Origin) {a : ℕ × Bytes}
    → IsOpened o.origin_conn o.opened
    → (fetch_origin exchange o).0 ≡ ok a
    → Kept exchange (fetch_origin exchange o).1 a
unfolding fetch_origin
fetch_origin-Kept exchange o = first_conn-Kept exchange o.origin_conn o

first-opened :
    (exchange : Exchange) (conn : ℕ) (r : Result String (ℕ × Bytes)) (o : Origin)
    → (first exchange conn r o).1.opened ≤ o.opened + 1
first-opened exchange conn (ok r) o = omega arith
first-opened exchange conn (err t) o = again (exchange 1 o.opened)
  where
    again :
        (r : Result String (ℕ × Bytes)) → (second o.opened r (reopened o)).1.opened ≤ o.opened + 1
    again (ok r) = omega arith
    again (err t) = omega arith

-- An object is fetched with at most two new connections.
pub fetch_origin-opened :
    (exchange : Exchange) (o : Origin) → (fetch_origin exchange o).1.opened ≤ o.opened + 2
unfolding fetch_origin
fetch_origin-opened exchange o = conns o.origin_conn
  where
    conns :
        (kept : Option ℕ)
        → (first exchange
            (first_conn kept o).0
            (exchange 0 (first_conn kept o).0)
            (first_conn kept o).1).1.opened
          ≤ o.opened + 2
    conns none =
        let l = first-opened exchange o.opened (exchange 0 o.opened) (reopened o) in omega arith
    conns (some conn) = let l = first-opened exchange conn (exchange 0 conn) o in omega arith
