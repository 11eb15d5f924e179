-- ===== src/Smoke.antt =====
-- bench/strong/flash_smoke.py: the proof that a service keeps values in its file tier (`main`). The
-- service is a parameter, and so is the number of looks that the clock leaves for a wait. A key is
-- named by its number, where 0 is the probe that expires; a number here fits in eight bytes.
pub mod Rises
pub mod Hits
use cachelib_grpc_server.Common.{
  ℕ, zero, suc, ◌+◌, ◌-◌, ◌*◌, ◌/◌, ◌%◌, min, String, Bool, true, false, not, ◌&&◌, ◌||◌, Option,
  none, some, List, [], ◌∷◌, ◌++◌, map, ltb, leb, eqb, if◌then◌else◌, Result, ok, err,
}
use cachelib_grpc_server.Harness.Actions.{
  Action, pure, raise, continue, ◌>>=◌, ◌>>◌, modify, raise_when,
}
use cachelib_grpc_server.Http.Bodies.{Bytes, take, drop, block, copies, little}
use cachelib_grpc_server.Summaries.Integers.{ℤ, minus}

-- `value`
unfoldable pub value : ℕ → ℕ → Bytes
value index size =
    little 8 index
    ++ drop 8
        (take size (copies (size / 256 + 1) (map (λ offset. (offset + index * 17) % 256) block)))

abbrev pub same_bytes : Bytes → Bytes → Bool
same_bytes [] [] = true
same_bytes [] (y ∷ ys) = false
same_bytes (x ∷ xs) [] = false
same_bytes (x ∷ xs) (y ∷ ys) = eqb x y && same_bytes xs ys

-- What the program reads of the service's statistics.
pub record Stats : Type 0 where
  pub nvm_enabled : Bool
  pub eviction_count : ℕ
  pub nvm_used : ℕ
  pub nvm_hit_count : ℕ
  pub nvm_device_bytes_written : ℕ
  pub nvm_device_bytes_read : ℕ

pub record Got : Type 0 where
  pub found : Bool
  pub value : Bytes
  pub ttl_remaining : ℕ

-- A service with a state; a call that fails raises.
pub record Service (C : Type 0) : Type 0 where
  pub stats : Action C Stats
  pub set : ℕ → Bytes → Option ℕ → Action C Bool
  pub get : ℕ → Action C Got
  -- what happens while the program sleeps
  pub pause : C → C

pub record Report : Type 0 where
  pub objects_written : ℕ
  pub value_bytes : ℕ
  pub evictions_delta : ℤ
  pub written_delta : ℤ
  pub read_delta : ℤ
  pub navy_hits_delta : ℤ
  pub verified_flash_hits : ℕ

-- `found_flash` and `hits_before`
pub record Scan : Type 0 where
  pub found : ℕ
  pub hits : ℕ

abbrev pub is_grown : Scan → Stats → Bool
is_grown s updated = ltb s.hits updated.nvm_hit_count

abbrev pub counted : Scan → Stats → Scan
counted s updated =
    if is_grown s updated
    then record { found = s.found + (updated.nvm_hit_count - s.hits); hits = updated.nvm_hit_count }
    else s

abbrev pub report_of : ℕ → ℕ → Stats → Stats → ℕ → Report
report_of objects size initial final found = record {
  objects_written = objects;
  value_bytes = size;
  evictions_delta = minus final.eviction_count initial.eviction_count;
  written_delta = minus final.nvm_used initial.nvm_used;
  read_delta = minus final.nvm_device_bytes_read initial.nvm_device_bytes_read;
  navy_hits_delta = minus final.nvm_hit_count initial.nvm_hit_count;
  verified_flash_hits = found;
}

abbrev pub is_evicting : Stats → Stats → Bool
is_evicting initial state =
    ltb initial.eviction_count state.eviction_count && ltb initial.nvm_used state.nvm_used

module _ {C : Type 0} (svc : Service C) where
  -- `assert`
  abbrev pub require : Bool → String → Action C (Unit {0})
  require b e = raise_when (not b) e

  -- The objects from `i` on, `n` of them.
  unfoldable pub write_all : ℕ → ℕ → ℕ → Action C (Unit {0})
  write_all size i zero = pure tt
  write_all size i (suc n) = do
    written ← svc.set i (value i size) none
    require written "Set"
    write_all size (i + 1) n

  unfoldable pub await_navy : ℕ → Stats → Action C Stats
  await_navy zero initial = raise "no DRAM eviction plus Navy write traffic"
  await_navy (suc looks) initial = do
    state ← svc.stats
    let rest = (do modify svc.pause; await_navy looks initial) in
        if is_evicting initial state then pure state else rest

  unfoldable pub scan : ℕ → ℕ → ℕ → Scan → Action C Scan
  scan size i zero s = pure s
  scan size i (suc n) s = do
    got ← svc.get i
    require (not got.found || same_bytes got.value (value i size)) "corrupt binary value"
    updated ← svc.stats
    let rest = scan size (i + 1) n (counted s updated) in
        if is_grown s updated && leb 4 (counted s updated).found
        then pure (counted s updated)
        else rest

  unfoldable pub await_expiry : ℕ → Action C (Unit {0})
  await_expiry zero = raise "TTL probe failed to expire"
  await_expiry (suc looks) = do
    got ← svc.get 0
    let rest = (do modify svc.pause; await_expiry looks) in if got.found then rest else pure tt

  -- The probe that expires, read from the file.
  unfoldable pub read_probe : ℕ → Action C (Unit {0})
  read_probe size = do
    before ← svc.stats
    got ← svc.get 0
    require (got.found && same_bytes got.value (value 0 size)) "TTL probe lost or corrupt"
    require (ltb 0 got.ttl_remaining && leb got.ttl_remaining 60)
        "TTL did not survive flash round trip"
    after ← svc.stats
    require (ltb before.nvm_hit_count after.nvm_hit_count) "TTL probe did not come from Navy"

  -- The flag, the probe and the objects, until the service evicts to the file: `initial` and
  -- `state`.
  unfoldable pub fill : ℕ → ℕ → ℕ → Action C (Stats × Stats)
  unfolding write_all await_navy
  fill looks objects size = do
    initial ← svc.stats
    require initial.nvm_enabled "NVM config flag absent"
    written ← svc.set 0 (value 0 size) (some 60)
    require written "Set"
    write_all size 1 objects
    state ← await_navy looks initial
    pure (initial, state)

  -- The last statistics and the report.
  unfoldable pub finish : ℕ → ℕ → Stats → ℕ → Action C Report
  finish objects size initial found = do
    final ← svc.stats
    require (ltb initial.nvm_device_bytes_written final.nvm_device_bytes_written) "written"
    require (ltb initial.nvm_device_bytes_read final.nvm_device_bytes_read)
        "Navy did not issue a device read"
    require (eqb final.nvm_device_bytes_written final.nvm_used) "legacy nvm_used disagrees"
    pure (report_of objects size initial final found)

  -- The objects and the probe, read back.
  unfoldable pub verify : ℕ → ℕ → ℕ → Stats → Stats → Action C Report
  unfolding scan await_expiry read_probe finish
  verify expiry_looks objects size initial state = do
    s ← scan size 1 (min objects 1024) (record { found = 0; hits = state.nvm_hit_count })
    require (leb 4 s.found) "no verified Navy hits after DRAM eviction"
    read_probe size
    await_expiry expiry_looks
    finish objects size initial s.found

  unfoldable pub main : ℕ → ℕ → ℕ → ℕ → Action C Report
  unfolding fill verify
  main looks expiry_looks objects size = do
    require (ltb 1024 objects && (leb 8 size && leb size 1048576)) "arguments"
    seen ← fill looks objects size
    verify expiry_looks objects size seen.0 seen.1
