-- ===== src/Tests/Investigations.antt =====
-- A comparison over HTTP that is cut short, and probes of a server that is slow to start.
use cachelib_grpc_server.Common.{
  ◌==◌, ◌≡◌, refl, ◌↔◌, true, some, [], ◌∷◌, eqb, if◌then◌else◌, ok, err,
}
use cachelib_grpc_server.Investigation.HttpPaths
use cachelib_grpc_server.Investigation.HttpPaths.{ClientEnd, failed, reported}
use cachelib_grpc_server.Investigation.HttpPaths.Removal
use cachelib_grpc_server.Investigation.HttpPaths.Removal.{IsClean}
use cachelib_grpc_server.Investigation.Limits
use cachelib_grpc_server.Investigation.Limits.Outcome
use cachelib_grpc_server.Investigation.Limits.Outcome.{Leaves, HealthyIn}

-- The adapter does not start.
abbrev world : HttpPaths.World
world = record {
  network = ok tt;
  run = λ name. if name == "adapter" then err "docker run failed" else ok tt;
  inspected = ok tt;
  probe = λ backend i. ok (eqb i 2);
  client = λ backend load. ok (reported (ok tt));
  memory = λ part. ok (some 5);
  printed = λ backend load. ok tt;
  stops = λ name. true;
  removes = λ name. true;
  network_removes = true;
}

main-IsClean_example :
    IsClean (HttpPaths.body world true HttpPaths.fresh).0 (HttpPaths.main world true)
main-IsClean_example = Removal.main-IsClean world true refl (λ name. (refl, refl)) refl

-- What was started by then.
started : (HttpPaths.main world true).1.started ≡ "origin" ∷ "nginx" ∷ "cache" ∷ []
unfolding HttpPaths.main HttpPaths.body HttpPaths.measure_backend HttpPaths.start_all
    HttpPaths.ready HttpPaths.measure HttpPaths.memory_of HttpPaths.stop_all HttpPaths.cleanup
    HttpPaths.remove_all
started = refl

abbrev probes : Limits.World
probes = record {
  network = ok tt;
  run = ok tt;
  healthy = λ i. eqb i 3;
  client = ok "json";
  decoded = λ s. ok s;
  inspected = ok tt;
  printed = ok tt;
  logs = ok tt;
  stops = ok tt;
  removes = ok true;
  network_removes = ok true;
}

main-Leaves_example :
    Leaves probes (Limits.main probes)
    × ((Limits.await_healthy 30 0 probes.healthy ≡ ok tt) ↔ HealthyIn 30 0 probes.healthy)
main-Leaves_example = Outcome.main-Leaves probes refl refl refl refl refl
