-- ===== src/Summaries/HttpRow/Containers.antt =====
-- Which containers the columns of an HTTP run are about: those that bench/strong/run_http.py starts.
use cachelib_grpc_server.Common.{
  ℕ, String, ◌==◌, ◌≡◌, refl, sym, ap, subst, ◌∙◌, some, List, ◌∷◌, lookup, get_elem?, true, Result,
  ok, ◌>>=◌, >>=-eq-ok, ok_injective,
}
use cachelib_grpc_server.Campaign.Evidence.{Doc}
use cachelib_grpc_server.Http.Harness.{World, fresh, body}
use cachelib_grpc_server.Http.Harness.Outcome.{result-containers}
use cachelib_grpc_server.Summaries.Counters.{Usage, cgroup}
use cachelib_grpc_server.Summaries.Values.{Value, Row}
use cachelib_grpc_server.Summaries.KvRow.{field}
use cachelib_grpc_server.Summaries.HttpRow.{
  HttpDoc, HttpFiles, Component, component_of, components, origin_usage, part_if, seconds, peak,
  http_columns,
}

-- What the texts of one container say.
abbrev pub component_at : HttpFiles → String → Result String Component
component_at files name = do
  before ← cgroup (files.before name)
  after ← cgroup (files.after name)
  ok (component_of before after)

-- A value of the row about a container.
abbrev pub Shows : HttpFiles → Row → String → (Component → Value) → String → Type 0
Shows files row name f column =
    (c : Component) × (component_at files name ≡ ok c) × (lookup column row ≡ some (f c))

component_at-ok :
    (files : HttpFiles) (name : String) {before after : Usage}
    → cgroup (files.before name) ≡ ok before
    → cgroup (files.after name) ≡ ok after
    → component_at files name ≡ ok (component_of before after)
component_at-ok files name b a = rw (b, a) refl

components-cons :
    (files : HttpFiles) (name : String) (names : List String) {cs : List Component}
    → components files (name ∷ names) ≡ ok cs
    → (c : Component) × (rest : List Component) × (component_at files name ≡ ok c)
      × (components files names ≡ ok rest)
      × (c ∷ rest ≡ cs)
unfolding components
components-cons files name names h =
    let (before, b, h1) = >>=-eq-ok (cgroup (files.before name)) _ h in
    let (after, a, h2) = >>=-eq-ok (cgroup (files.after name)) _ h1 in
    let (rest, r, h3) = >>=-eq-ok (components files names) _ h2 in
    (component_of before after, rest, component_at-ok files name b a, r, ok_injective h3)

part_if-found :
    (i : ℕ) (cs : List Component) (f : Component → Value) {v : Value} {c : Component}
    → get_elem? cs i ≡ some c
    → part_if true i cs f ≡ ok v
    → v ≡ f c
part_if-found i cs f e h = ok_injective (sym h ∙ (rw e refl))

-- The values of the row about parts of the path, for the parts that were measured.
abbrev PartsShown : String → List Component → Row → Type 0
PartsShown engine cs row =
    (nginx : Value) × (adapter : Value) × (grpc : Value) × (adapter_peak : Value)
    × (grpc_peak : Value) × (part_if (engine == "nginx") 0 cs seconds ≡ ok nginx)
    × (part_if (engine == "grpc_adapter") 1 cs seconds ≡ ok adapter)
    × (part_if (engine == "grpc_adapter") 0 cs seconds ≡ ok grpc)
    × (part_if (engine == "grpc_adapter") 1 cs peak ≡ ok adapter_peak)
    × (part_if (engine == "grpc_adapter") 0 cs peak ≡ ok grpc_peak)
    × (lookup "nginx_cpu_s" row ≡ some nginx)
    × (lookup "adapter_cpu_s" row ≡ some adapter)
    × (lookup "grpc_server_cpu_s" row ≡ some grpc)
    × (lookup "adapter_memory_peak_bytes" row ≡ some adapter_peak)
    × (lookup "grpc_server_memory_peak_bytes" row ≡ some grpc_peak)

columns-parts :
    (engine : String) (d : HttpDoc) (files : HttpFiles) {row : Row}
    → http_columns engine d files ≡ ok row
    → (cs : List Component) × (components files d.path_containers ≡ ok cs)
      × PartsShown engine cs row
unfolding http_columns
columns-parts engine d files {row} h =
    let (ob, e1, h1) = >>=-eq-ok (origin_usage files.before d.origin_container) _ h in
    let (oa, e2, h2) = >>=-eq-ok (origin_usage files.after d.origin_container) _ h1 in
    let (cs, e3, h3) = >>=-eq-ok (components files d.path_containers) _ h2 in
    let (a, e4, h4) = >>=-eq-ok (field "objects_s" d.fields) _ h3 in
    let (b, e5, h5) = >>=-eq-ok (field "payload_mib_s" d.fields) _ h4 in
    let (c, e6, h6) = >>=-eq-ok (field "origin_bytes_delta" d.fields) _ h5 in
    let (p, e7, h7) = >>=-eq-ok (field "p50_ms" d.fields) _ h6 in
    let (q, e8, h8) = >>=-eq-ok (field "p95_ms" d.fields) _ h7 in
    let (r, e9, h9) = >>=-eq-ok (field "p99_ms" d.fields) _ h8 in
    let (s, e10, h10) = >>=-eq-ok (field "latency_samples" d.fields) _ h9 in
    let (m, e11, h11) = >>=-eq-ok (field "client_memory_peak_bytes" d.fields) _ h10 in
    let (nginx, n, h12) = >>=-eq-ok (part_if (engine == "nginx") 0 cs seconds) _ h11 in
    let (adapter, t, h13) = >>=-eq-ok (part_if (engine == "grpc_adapter") 1 cs seconds) _ h12 in
    let (grpc, g, h14) = >>=-eq-ok (part_if (engine == "grpc_adapter") 0 cs seconds) _ h13 in
    let (adapter_peak, u, h15) = >>=-eq-ok (part_if (engine == "grpc_adapter") 1 cs peak) _ h14 in
    let (grpc_peak, v, h16) = >>=-eq-ok (part_if (engine == "grpc_adapter") 0 cs peak) _ h15 in
    (
      cs,
      e3,
      subst (PartsShown engine cs) (ok_injective h16) (
        nginx, adapter, grpc, adapter_peak, grpc_peak, n, t, g, u, v, refl, refl, refl, refl, refl,
      ),
    )

shows :
    (files : HttpFiles) (row : Row) (name : String) (f : Component → Value) (column : String)
    (i : ℕ) (cs : List Component) {c : Component} {v : Value}
    → component_at files name ≡ ok c
    → get_elem? cs i ≡ some c
    → part_if true i cs f ≡ ok v
    → lookup column row ≡ some v
    → Shows files row name f column
shows files row name f column i cs {c} at e p l =
    (c, at, l ∙ ap (λ v. some v) (part_if-found i cs f e p))

module _ (w : World) {written : Doc} (d : HttpDoc) (files : HttpFiles) {row : Row} where
  -- A row that is made of a run through the adapter, by the containers that the run's result names,
  -- has the CPU and the peak of the cache server under the columns of the cache server, and those of
  -- the adapter under the columns of the adapter.
  pub adapter_columns :
      (body w "grpc_adapter" fresh).1.result ≡ some written
      → d.path_containers ≡ (body w "grpc_adapter" fresh).1.path_containers
      → http_columns "grpc_adapter" d files ≡ ok row
      → Shows files row "cache" seconds "grpc_server_cpu_s"
        × Shows files row "cache" peak "grpc_server_memory_peak_bytes"
        × Shows files row "target" seconds "adapter_cpu_s"
        × Shows files row "target" peak "adapter_memory_peak_bytes"
  adapter_columns made named h =
      let path = named ∙ (result-containers w "grpc_adapter" made).0 in
      let (cs, c, parts) = columns-parts "grpc_adapter" d files h in
      let (nginx, adapter, grpc, top, grpc_top, n, t, g, u, v, ln, lt, lg, lu, lv) = parts in
      let (first, rest, at1, c1, e1) =
        components-cons files "cache" _ (ap (components files) (sym path) ∙ c) in
      let (second, none_left, at2, c2, e2) = components-cons files "target" _ c1 in
      let zeroth : get_elem? cs 0 ≡ some first =
        subst (λ cs. get_elem? cs 0 ≡ some first) e1 refl in
      let next : get_elem? cs 1 ≡ some second =
        subst (λ cs. get_elem? cs 1 ≡ some second) e1
          (subst (λ rest. get_elem? rest 0 ≡ some second) e2 refl) in
      (
        shows files row "cache" seconds "grpc_server_cpu_s" 0 cs at1 zeroth g lg,
        shows files row "cache" peak "grpc_server_memory_peak_bytes" 0 cs at1 zeroth v lv,
        shows files row "target" seconds "adapter_cpu_s" 1 cs at2 next t lt,
        shows files row "target" peak "adapter_memory_peak_bytes" 1 cs at2 next u lu,
      )

  -- A row that is made of a run through NGINX has the CPU of that container under its column.
  nginx_columns :
      (body w "nginx" fresh).1.result ≡ some written
      → d.path_containers ≡ (body w "nginx" fresh).1.path_containers
      → http_columns "nginx" d files ≡ ok row
      → Shows files row "target" seconds "nginx_cpu_s"
  nginx_columns made named h =
      let path = named ∙ (result-containers w "nginx" made).0 in
      let (cs, c, parts) = columns-parts "nginx" d files h in
      let (nginx, adapter, grpc, top, grpc_top, n, t, g, u, v, ln, lt, lg, lu, lv) = parts in
      let (first, rest, at1, c1, e1) =
        components-cons files "target" _ (ap (components files) (sym path) ∙ c) in
      let zeroth : get_elem? cs 0 ≡ some first =
        subst (λ cs. get_elem? cs 0 ≡ some first) e1 refl in
      shows files row "target" seconds "nginx_cpu_s" 0 cs at1 zeroth n ln
