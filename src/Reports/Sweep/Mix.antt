-- ===== src/Reports/Sweep/Mix.antt =====
-- The operation mix, and the one image that a summary describes.
use cachelib_grpc_server.Common.{
  String, ◌==◌, ◌≡◌, ap, subst, ◌∙◌, not, Option, none, some, List, [], ◌∷◌, map, lookup, Result,
  ok, err, arith, eq_iff, >>=-eq-ok, raise_if-eq-ok,
}
use cachelib_grpc_server.Reports.Sweep.{
  Summary, Repetition, mix_entry, mix_of, operations, operation_mix, Report, sweep, main,
}

mix_entry-name :
    (name : String) (o : Option Summary) {e : String × Summary}
    → mix_entry name o ≡ ok e
    → name ≡ e.0
mix_entry-name name none h = cc
mix_entry-name name (some s) h = ap name_of h
  where
    name_of : Result String (String × Summary) → String
    name_of (ok e) = e.0
    name_of (err t) = name

mix_of-names :
    (files : List (String × Summary)) (names : List String) {mix : List (String × Summary)}
    → mix_of files names ≡ ok mix
    → names ≡ map (λ (e : String × Summary). e.0) mix
mix_of-names files [] h = ap (λ m. map (λ (e : String × Summary). e.0) m) (ok_injective h)
  where
    ok_injective :
        {a b : List (String × Summary)}
        → ◌≡◌ {A = Result String (List (String × Summary))} (ok a) (ok b)
        → a ≡ b
    ok_injective e = cc
mix_of-names files (name ∷ names) {mix} h =
    let (one, found, h1) = >>=-eq-ok (mix_entry name (lookup name files)) _ h in
    let (rest, others, h2) = >>=-eq-ok (mix_of files names) _ h1 in
    let same = mix_entry-name name (lookup name files) found in
    let tail = mix_of-names files names others in
    let whole : one ∷ rest ≡ mix = cc in
    subst (λ m. name ∷ names ≡ map (λ (e : String × Summary). e.0) m) whole cc

-- A summary that is written describes one image, by the digests of both parts, and its operation mix
-- has the four operations, each once and in order.
pub main_one_image :
    (digest sweep_digest : String) (files : List (String × Summary)) (reps : List Repetition)
    {report : Report}
    → main digest sweep_digest files reps ≡ ok report
    → (digest ≡ sweep_digest) × (operations ≡ map (λ (e : String × Summary). e.0) report.mix)
unfolding main operation_mix
main_one_image digest sweep_digest files reps {report} h =
    let (same, h1) = raise_if-eq-ok (not (digest == sweep_digest)) _ h in
    let (mix, mixed, h2) = >>=-eq-ok (operation_mix files) _ h1 in
    let (levels, swept, h3) = >>=-eq-ok (sweep reps) _ h2 in
    let mix_of_report : mix ≡ report.mix = cc in
    (
      ground (arith, eq_iff digest sweep_digest),
      mix_of-names files operations mixed
          ∙ ap (λ m. map (λ (e : String × Summary). e.0) m) mix_of_report,
    )
