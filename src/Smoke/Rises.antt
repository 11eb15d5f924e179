-- ===== src/Smoke/Rises.antt =====
-- The counter of hits in the file while bench/strong/flash_smoke.py writes, waits and reads the probe.
use cachelib_grpc_server.Common.{
  ℕ, zero, suc, ◌+◌, ◌≤◌, ◌≡◌, ap, subst, Bool, ◌&&◌, Bool-cases, inl, inr, Option, none, ltb, leb,
  ltb→lt, ok, arith,
}
use cachelib_grpc_server.Harness.Actions.{pure}
use cachelib_grpc_server.Http.Bodies.{Bytes}
use cachelib_grpc_server.Smoke.{
  value, same_bytes, Stats, Got, Service, write_all, is_evicting, await_navy, await_expiry,
  read_probe,
}
use cachelib_grpc_server.Harness.Actions.Ends.{
  raised-not, >>=-ok, require-ok, require-last, pure-same,
}

-- A service whose counter of hits in the file is `hits`, and never falls.
pub record IsRising {C : Type 0} (svc : Service C) (hits : C → ℕ) : Type 0 where
  pub stats_rise :
      (c : C) (s : Stats) (d : C)
      → svc.stats c ≡ (ok s, d)
      → (hits c ≤ s.nvm_hit_count) × (s.nvm_hit_count ≤ hits d)
  pub set_rise :
      (k : ℕ) (v : Bytes) (ttl : Option ℕ) (c : C) (b : Bool) (d : C)
      → svc.set k v ttl c ≡ (ok b, d)
      → hits c ≤ hits d
  pub get_rise : (k : ℕ) (c : C) (g : Got) (d : C) → svc.get k c ≡ (ok g, d) → hits c ≤ hits d
  pub pause_rise : (c : C) → hits c ≤ hits (svc.pause c)

module _ {C : Type 0} (svc : Service C) (hits : C → ℕ) (r : IsRising svc hits) where
  pub write_all_rises :
      (size i n : ℕ) (c d : C) → write_all svc size i n c ≡ (ok tt, d) → hits c ≤ hits d
  unfolding write_all
  write_all_rises size i zero c d h = let e = (pure-same hits h).1 in omega arith
  write_all_rises size i (suc n) c d h =
      let (b, c1, s, h1) = >>=-ok (svc.set i (value i size) none) _ c h in
      let (done, h2) = require-ok b _ _ c1 h1 in
      let first = r.set_rise i (value i size) none c b c1 s in
      let later = write_all_rises size (i + 1) n c1 d h2 in omega arith

  -- A reading of the counter between two states.
  abbrev pub Between : C → Stats → C → Type 0
  Between c s d = (hits c ≤ s.nvm_hit_count) × (s.nvm_hit_count ≤ hits d)

  Between-same :
      (c c1 d : C) (s t : Stats) → Between c s c1 → pure {S = C} s c1 ≡ (ok t, d) → Between c t d
  Between-same c c1 d s t b h =
      let (e, l) = pure-same hits h in subst (λ t. Between c t d) e (b.0, omega arith)

  pub await_navy_rises :
      (looks : ℕ) (initial state : Stats) (c d : C)
      → await_navy svc looks initial c ≡ (ok state, d)
      → Between c state d
  unfolding await_navy
  await_navy_rises zero initial state c d h = absurd (raised-not h)
  await_navy_rises (suc looks) initial state c d h =
      let (s, c1, e, h1) = >>=-ok svc.stats _ c h in
      let at = r.stats_rise c s c1 e in
      let paused = r.pause_rise c1 in
      elim (Bool-cases (is_evicting initial s)) [
        | inl k ↦ Between-same c c1 d s state at (rw k at h1)
        | inr k ↦
            let later = await_navy_rises looks initial state (svc.pause c1) d (rw k at h1) in
            (omega arith, omega arith)
      ]

  pub await_expiry_rises :
      (looks : ℕ) (c d : C) → await_expiry svc looks c ≡ (ok tt, d) → hits c ≤ hits d
  unfolding await_expiry
  await_expiry_rises zero c d h = absurd (raised-not h)
  await_expiry_rises (suc looks) c d h =
      let (g, c1, e, h1) = >>=-ok (svc.get 0) _ c h in
      let first = r.get_rise 0 c g c1 e in
      let paused = r.pause_rise c1 in
      elim (Bool-cases g.found) [
        | inl k ↦ let later = await_expiry_rises looks (svc.pause c1) d (rw k at h1) in omega arith
        | inr k ↦ let same = (pure-same hits (rw k at h1)).1 in omega arith
      ]

  pub read_probe_rises :
      (size : ℕ) (c d : C) → read_probe svc size c ≡ (ok tt, d) → hits c + 1 ≤ hits d
  unfolding read_probe
  read_probe_rises size c d h =
      let (before, c1, e1, h1) = >>=-ok svc.stats _ c h in
      let (g, c2, e2, h2) = >>=-ok (svc.get 0) _ c1 h1 in
      let (same, h3) =
        require-ok (g.found && same_bytes g.value (value 0 size)) "TTL probe lost or corrupt" _ c2
          h2 in
      let (left, h4) =
        require-ok (ltb 0 g.ttl_remaining && leb g.ttl_remaining 60)
          "TTL did not survive flash round trip" _ c2 h3 in
      let (after, c3, e3, h5) = >>=-ok svc.stats _ c2 h4 in
      let (grew, at_end) =
        require-last (ltb before.nvm_hit_count after.nvm_hit_count)
          "TTL probe did not come from Navy" c3 h5 in
      let at = r.stats_rise c before c1 e1 in
      let got = r.get_rise 0 c1 g c2 e2 in
      let later = r.stats_rise c2 after c3 e3 in
      let same = ap hits at_end in
      let l = ltb→lt before.nvm_hit_count after.nvm_hit_count grew in omega arith
