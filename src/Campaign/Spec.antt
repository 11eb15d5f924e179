-- ===== src/Campaign/Spec.antt =====
-- bench/strong/release_campaign.py: the definition of a group of measurements (`group`), the runs
-- that it expects (`expected_runs`), and the campaign's size (`plan`).
use Prim.Native.Char.{Char, code}
use cachelib_grpc_server.Common.{
  ℕ, zero, suc, ◌+◌, ◌*◌, String, Bool, true, false, Option, none, List, [], ◌∷◌, map, length,
  concat_map, eqb, if◌then◌else◌,
}

pub data Kind : Type 0 where
  kv http : Kind

pub record Spec : Type 0 where
  pub name : String
  pub cases : List String
  pub engines : List String
  pub reps : ℕ
  pub seconds : ℕ
  pub warmup : ℕ
  pub kind : Kind
  pub cache_mb : ℕ
  pub memory_mb : ℕ
  pub headline : Bool
  -- the optional keys: absent is `none` and `false`
  pub flash_mb : Option ℕ
  pub discard_flash : Bool
  pub overload_probe : Bool

-- The keyword arguments of `group`, and their defaults.
pub record Options : Type 0 where
  pub reps : ℕ
  pub seconds : ℕ
  pub kind : Kind
  pub cache : ℕ
  pub memory : ℕ
  pub headline : Bool
  pub warmup : ℕ
  pub flash : Option ℕ
  pub discard_flash : Bool
  pub overload_probe : Bool

abbrev pub defaults : Options
defaults = record {
  reps = 5;
  seconds = 60;
  kind = kv;
  cache = 96;
  memory = 768;
  headline = true;
  warmup = 15;
  flash = none;
  discard_flash = false;
  overload_probe = false;
}

abbrev extend : Char → List String → List String
extend c [] = (String.◌∷◌ c "") ∷ []
extend c (w ∷ ws) = (String.◌∷◌ c w) ∷ ws

-- `s.split(",")`
abbrev pub split : String → List String
split String.[] = "" ∷ []
split (String.◌∷◌ c s) =
    let rest = split s in if eqb (code c) b',' then "" ∷ rest else extend c rest

abbrev pub group : String → String → String → Options → Spec
group name cases engines o = record {
  name = name;
  cases = split cases;
  engines = split engines;
  reps = o.reps;
  seconds = o.seconds;
  warmup = o.warmup;
  kind = o.kind;
  cache_mb = o.cache;
  memory_mb = o.memory;
  headline = o.headline;
  flash_mb = o.flash;
  discard_flash = o.discard_flash;
  overload_probe = o.overload_probe;
}

-- `range(n)`, from `i` on
abbrev pub range_from : ℕ → ℕ → List ℕ
range_from i zero = []
range_from i (suc n) = i ∷ range_from (i + 1) n

-- A run: its case, its repetition (the directory `r<repetition>`) and its engine.
pub record Run : Type 0 where
  pub case : String
  pub rep : ℕ
  pub engine : String

abbrev pub runs_of_rep : String → ℕ → List String → List Run
runs_of_rep case rep = map (λ engine. record { case = case; rep = rep; engine = engine })

abbrev pub runs_of_case : Spec → String → List Run
runs_of_case spec case =
    concat_map (λ rep. runs_of_rep case rep spec.engines) (range_from 0 spec.reps)

unfoldable pub expected_runs : Spec → List Run
expected_runs spec = concat_map (runs_of_case spec) spec.cases

abbrev pub sum : List ℕ → ℕ
sum [] = 0
sum (n ∷ ns) = n + sum ns

pub record Plan : Type 0 where
  pub groups : List Spec
  pub runs : ℕ
  pub minimum_timed_seconds : ℕ

unfoldable pub plan : List Spec → Plan
unfolding expected_runs
plan groups = record {
  groups = groups;
  runs = sum (map (λ g. length (expected_runs g)) groups);
  minimum_timed_seconds = sum (map (λ g. length (expected_runs g) * (g.seconds + g.warmup)) groups);
}
