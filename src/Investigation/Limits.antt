-- ===== src/Investigation/Limits.antt =====
-- bench/investigation/run_limits.py: the probes with large values against a server of their own
-- (`main`). What Docker answers is a parameter.
pub mod Outcome
use cachelib_grpc_server.Common.{
  ℕ, zero, suc, ◌+◌, String, Bool, true, false, Option, none, some, Result, ok, err, if◌then◌else◌,
}
use cachelib_grpc_server.Harness.Actions.{Action, pure, lift, continue, ◌>>=◌, ◌>>◌, modify}

-- What is written, and whether Docker has removed the server and the network: with exit status 0.
pub record Dir : Type 0 where
  pub server_command : Bool
  pub client_command : Bool
  -- result.json, decoded and written again
  pub result : Option String
  pub manifest : Bool
  pub logged : Bool
  pub server_removed : Bool
  pub network_removed : Bool

abbrev pub fresh : Dir
fresh = record {
  server_command = false;
  client_command = false;
  result = none;
  manifest = false;
  logged = false;
  server_removed = false;
  network_removed = false;
}

pub record World : Type 0 where
  pub network : Result String (Unit {0})
  pub run : Result String (Unit {0})
  -- whether the server is healthy at a look
  pub healthy : ℕ → Bool
  pub client : Result String String
  pub decoded : String → Result String String
  pub inspected : Result String (Unit {0})
  pub printed : Result String (Unit {0})
  -- The calls of `finally`, whose exit status is not checked: they raise where Docker cannot be run or
  -- its output not be read, and of the removals it is told whether they end with status 0.
  pub logs : Result String (Unit {0})
  pub stops : Result String (Unit {0})
  pub removes : Result String Bool
  pub network_removes : Result String Bool

-- At the `i`-th look with `n` looks left.
unfoldable pub await_healthy : ℕ → ℕ → (ℕ → Bool) → Result String (Unit {0})
await_healthy zero i healthy = err "server did not become healthy"
await_healthy (suc n) i healthy =
    let rest = await_healthy n (i + 1) healthy in if healthy i then ok tt else rest

abbrev pub with_server_command : Dir → Dir
with_server_command dir = record dir { server_command = true }

abbrev pub with_client_command : Dir → Dir
with_client_command dir = record dir { client_command = true }

abbrev pub with_result : String → Dir → Dir
with_result json dir = record dir { result = some json }

abbrev pub with_manifest : Dir → Dir
with_manifest dir = record dir { manifest = true }

-- The body of the `try`.
unfoldable pub body : World → Action Dir (Unit {0})
body w = do
  modify with_server_command
  lift w.run
  modify with_client_command
  lift (await_healthy 30 0 w.healthy)
  stdout ← lift w.client
  json ← lift (w.decoded stdout)
  modify (with_result json)
  lift w.inspected
  modify with_manifest
  lift w.printed

abbrev pub with_log : Dir → Dir
with_log dir = record dir { logged = true }

abbrev pub without_server : Bool → Dir → Dir
without_server gone dir = record dir { server_removed = gone }

abbrev pub without_network : Bool → Dir → Dir
without_network gone dir = record dir { network_removed = gone }

-- `finally`
unfoldable pub cleanup : World → Action Dir (Unit {0})
cleanup w = do
  lift w.logs
  modify with_log
  lift w.stops
  server ← lift w.removes
  modify (without_server server)
  network ← lift w.network_removes
  modify (without_network network)

-- An exception of `finally` takes the place of one before it.
abbrev pub after :
    Result String (Unit {0}) → Result String (Unit {0}) × Dir → Result String (Unit {0}) × Dir
after r (ok a, dir) = (r, dir)
after r (err e, dir) = (err e, dir)

abbrev pub in_network : World → Result String (Unit {0}) → Result String (Unit {0}) × Dir
in_network w (err e) = (err e, fresh)
in_network w (ok u) = let (r, dir) = body w fresh in after r (cleanup w dir)

unfoldable pub main : World → Result String (Unit {0}) × Dir
main w = in_network w w.network
