-- ===== src/Tests/Smoke.antt =====
-- A service that evicts every object to its file and drops the probe while the program sleeps.
use cachelib_grpc_server.Common.{
  ℕ, ◌+◌, ◌*◌, ◌≡◌, refl, ap, Bool, true, false, ok, arith, ok_injective, eqb, ◌&&◌, not,
}
use cachelib_grpc_server.Summaries.Integers.{pos}
use cachelib_grpc_server.Smoke.{value, Stats, Service, Report, main}
use cachelib_grpc_server.Smoke.Hits
use cachelib_grpc_server.Smoke.Hits.{IsVerified}
use cachelib_grpc_server.Smoke.Rises.{IsRising}

record Disk : Type 0 where
  sets : ℕ
  hits : ℕ
  is_expired : Bool

abbrev stats_of : Disk → Stats
stats_of c = record {
  nvm_enabled = true;
  eviction_count = c.sets;
  nvm_used = c.sets * 8;
  nvm_hit_count = c.hits;
  nvm_device_bytes_written = c.sets * 8;
  nvm_device_bytes_read = c.hits * 8;
}

abbrev disk : Service Disk
disk = record {
  stats = λ (c : Disk). (ok (stats_of c), c);
  set = λ k v ttl (c : Disk).
      (ok true, record { sets = c.sets + 1; hits = c.hits; is_expired = c.is_expired });
  get = λ k (c : Disk). (
    ok (record { found = not (c.is_expired && eqb k 0); value = value k 8; ttl_remaining = 59 }),
    record { sets = c.sets; hits = c.hits + 1; is_expired = c.is_expired },
  );
  pause = λ (c : Disk). record { sets = c.sets; hits = c.hits; is_expired = true };
}

disk-IsRising : IsRising disk (λ c. c.hits)
disk-IsRising = record {
  stats_rise = λ c s d h.
      let e = ap (λ s. s.nvm_hit_count) (ok_injective (ap (λ p. p.0) h)) in
      let m = ap (λ p. p.1.hits) h in (omega arith, omega arith);
  set_rise = λ k v ttl c b d h. let m = ap (λ p. p.1.hits) h in omega arith;
  get_rise = λ k c g d h. let m = ap (λ p. p.1.hits) h in omega arith;
  pause_rise = λ c. omega arith;
}

abbrev empty : Disk
empty = record { sets = 0; hits = 0; is_expired = false }

abbrev passed : Report
passed = record {
  objects_written = 1025;
  value_bytes = 8;
  evictions_delta = pos 1026;
  written_delta = pos 8208;
  read_delta = pos 56;
  navy_hits_delta = pos 7;
  verified_flash_hits = 4;
}

passes :
    main disk 1 2 1025 8 empty ≡ (ok passed, record { sets = 1026; hits = 7; is_expired = true })
unfolding main value
passes = refl

main-IsVerified_example : IsVerified passed
main-IsVerified_example =
    Hits.main-IsVerified disk (λ c. c.hits) disk-IsRising 1 2 1025 8 empty
      (record { sets = 1026; hits = 7; is_expired = true }) passed passes
