-- ===== src/Smoke/Hits.antt =====
-- What the hits that bench/strong/flash_smoke.py counts say of the service's counter.
use cachelib_grpc_server.Common.{
  ℕ, zero, suc, ◌+◌, ◌-◌, ◌≤◌, min, ◌≡◌, refl, subst, not, ◌&&◌, ◌||◌, Bool-cases, inl, inr, some,
  ltb, leb, ltb→lt, leb→le, eqb, ok, arith,
}
use cachelib_grpc_server.Summaries.Integers.{pos, minus}
use cachelib_grpc_server.Smoke.{
  value, same_bytes, Stats, Service, Report, Scan, is_grown, counted, write_all, await_navy, scan,
  await_expiry, read_probe, report_of, fill, finish, verify, main,
}
use cachelib_grpc_server.Harness.Actions.Ends.{>>=-ok, require-ok, pure-same}
use cachelib_grpc_server.Smoke.Rises.{
  IsRising, write_all_rises, await_navy_rises, await_expiry_rises, read_probe_rises,
}

minus-pos : (a b : ℕ) → b ≤ a → minus a b ≡ pos (a - b)
minus-pos a b l = ground arith

-- Four hits were counted; the reported rise is a number `n`, and they and the probe's hit are in it.
abbrev pub IsVerified : Report → Type 0
IsVerified p =
    (4 ≤ p.verified_flash_hits)
    × (n : ℕ) × (p.navy_hits_delta ≡ pos n)
    × (p.verified_flash_hits + 1 ≤ n)

module _ {C : Type 0} (svc : Service C) (hits : C → ℕ) (r : IsRising svc hits) where
  -- The hits that are counted are those by which the counter has risen.
  abbrev Counts : Scan → Scan → C → Type 0
  Counts s t d = (t.hits ≤ hits d) × (t.found + s.hits ≡ s.found + t.hits) × (s.hits ≤ t.hits)

  counted-Counts :
      (s : Scan) (u : Stats) (d : C)
      → s.hits ≤ hits d
      → u.nvm_hit_count ≤ hits d
      → Counts s (counted s u) d
  counted-Counts s u d h k = elim (Bool-cases (is_grown s u)) [
    | inl e ↦
        let l = ltb→lt s.hits u.nvm_hit_count e in rw e (omega arith, omega arith, omega arith)
    | inr e ↦ rw e (h, refl, omega arith)
  ]

  scan-Counts :
      (size i n : ℕ) (s t : Scan) (c d : C)
      → s.hits ≤ hits c
      → scan svc size i n s c ≡ (ok t, d)
      → Counts s t d
  unfolding scan
  scan-Counts size i zero s t c d l h =
      let (e, m) = pure-same hits h in subst (λ t. Counts s t d) e (omega arith, refl, omega arith)
  scan-Counts size i (suc n) s t c d l h =
      let (g, c1, e1, h1) = >>=-ok (svc.get i) _ c h in
      let (fine, h2) =
        require-ok (not g.found || same_bytes g.value (value i size)) "corrupt binary value" _ c1
          h1 in
      let (u, c2, e2, h3) = >>=-ok svc.stats _ c1 h2 in
      let first = r.get_rise i c g c1 e1 in
      let at = r.stats_rise c1 u c2 e2 in
      let now = counted-Counts s u c2 (omega arith) at.1 in
      elim (Bool-cases (is_grown s u && leb 4 (counted s u).found)) [
        | inl k ↦
            let (e, m) = pure-same hits (rw k at h3) in
            subst (λ t. Counts s t d) e (omega arith, now.1, now.2)
        | inr k ↦
            let later = scan-Counts size (i + 1) n (counted s u) t c2 d now.0 (rw k at h3) in
            (later.0, omega arith, omega arith)
      ]

  report-IsVerified :
      (objects size : ℕ) (initial final : Stats) (found : ℕ)
      → 4 ≤ found
      → initial.nvm_hit_count + found + 1 ≤ final.nvm_hit_count
      → IsVerified (report_of objects size initial final found)
  report-IsVerified objects size initial final found four l =
      let same = minus-pos final.nvm_hit_count initial.nvm_hit_count (omega arith) in
      (four, final.nvm_hit_count - initial.nvm_hit_count, same, omega arith)

  fill_rises :
      (looks objects size : ℕ) (seen : Stats × Stats) (c d : C)
      → fill svc looks objects size c ≡ (ok seen, d)
      → (seen.0.nvm_hit_count ≤ seen.1.nvm_hit_count) × (seen.1.nvm_hit_count ≤ hits d)
  unfolding fill
  fill_rises looks objects size seen c d h =
      let (initial, c1, e1, h1) = >>=-ok svc.stats _ c h in
      let (flag, h2) = require-ok initial.nvm_enabled "NVM config flag absent" _ c1 h1 in
      let (b, c2, e2, h3) = >>=-ok (svc.set 0 (value 0 size) (some 60)) _ c1 h2 in
      let (done, h4) = require-ok b "Set" _ c2 h3 in
      let (_, c3, e3, h5) = >>=-ok (write_all svc size 1 objects) _ c2 h4 in
      let (state, c4, e4, h6) = >>=-ok (await_navy svc looks initial) _ c3 h5 in
      let first = r.stats_rise c initial c1 e1 in
      let second = r.set_rise 0 (value 0 size) (some 60) c1 b c2 e2 in
      let third = write_all_rises svc hits r size 1 objects c2 c3 e3 in
      let fourth = await_navy_rises svc hits r looks initial state c3 c4 e4 in
      let (same, last) = pure-same hits h6 in
      subst (λ s. (s.0.nvm_hit_count ≤ s.1.nvm_hit_count) × (s.1.nvm_hit_count ≤ hits d)) same
        (omega arith, omega arith)

  finish-IsVerified :
      (objects size : ℕ) (initial : Stats) (found : ℕ) (c d : C) (report : Report)
      → 4 ≤ found
      → initial.nvm_hit_count + found + 1 ≤ hits c
      → finish svc objects size initial found c ≡ (ok report, d)
      → IsVerified report
  unfolding finish
  finish-IsVerified objects size initial found c d report four l h =
      let (final, c1, e1, h1) = >>=-ok svc.stats _ c h in
      let (wrote, h2) =
        require-ok (ltb initial.nvm_device_bytes_written final.nvm_device_bytes_written) "written" _
          c1 h1 in
      let (read, h3) =
        require-ok (ltb initial.nvm_device_bytes_read final.nvm_device_bytes_read)
          "Navy did not issue a device read" _ c1 h2 in
      let (agree, h4) =
        require-ok (eqb final.nvm_device_bytes_written final.nvm_used) "legacy nvm_used disagrees" _
          c1 h3 in
      let at = r.stats_rise c final c1 e1 in
      subst IsVerified (pure-same hits h4).0
        (report-IsVerified objects size initial final found four (omega arith))

  verify-IsVerified :
      (expiry_looks objects size : ℕ) (initial state : Stats) (c d : C) (report : Report)
      → initial.nvm_hit_count ≤ state.nvm_hit_count
      → state.nvm_hit_count ≤ hits c
      → verify svc expiry_looks objects size initial state c ≡ (ok report, d)
      → IsVerified report
  unfolding verify
  verify-IsVerified expiry_looks objects size initial state c d report l m h =
      let start : Scan = record { found = 0; hits = state.nvm_hit_count } in
      let (s, c1, e1, h1) = >>=-ok (scan svc size 1 (min objects 1024) start) _ c h in
      let (four, h2) =
        require-ok (leb 4 s.found) "no verified Navy hits after DRAM eviction" _ c1 h1 in
      let (_, c2, e2, h3) = >>=-ok (read_probe svc size) _ c1 h2 in
      let (_, c3, e3, h4) = >>=-ok (await_expiry svc expiry_looks) _ c2 h3 in
      let counted = scan-Counts size 1 (min objects 1024) start s c c1 m e1 in
      let probed = read_probe_rises svc hits r size c1 c2 e2 in
      let expired = await_expiry_rises svc hits r expiry_looks c2 c3 e3 in
      finish-IsVerified objects size initial s.found c3 d report (leb→le 4 s.found four)
        (omega arith) h4

  -- Over a service whose counter of hits in the file never falls, a test that ends with a report
  -- has counted four hits at least, and the counter's rise that it reports is not negative and holds
  -- those hits and one more, the hit of the probe that expires.
  pub main-IsVerified :
      (looks expiry_looks objects size : ℕ) (c d : C) (report : Report)
      → main svc looks expiry_looks objects size c ≡ (ok report, d)
      → IsVerified report
  unfolding main
  main-IsVerified looks expiry_looks objects size c d report h =
      let (args, h1) =
        require-ok (ltb 1024 objects && (leb 8 size && leb size 1048576)) "arguments" _ c h in
      let (seen, c1, e1, h2) = >>=-ok (fill svc looks objects size) _ c h1 in
      let (l, m) = fill_rises looks objects size seen c c1 e1 in
      verify-IsVerified expiry_looks objects size seen.0 seen.1 c1 d report l m h2
