-- ===== src/Rendered/Environment.antt =====
-- bench/render.py: the table of the environment, with the versions of what was measured and of the
-- tree (`measured_version`, `_drift_row`, `render_environment`).
use Prim.Native.Char.{code}
use cachelib_grpc_server.Common.{
  ℕ, zero, suc, String, ◌==◌, ◌||◌, Option, none, some, eqb, after_first, if◌then◌else◌, Result, ok,
  err, ◌>>=◌,
}

pub record Environment : Type 0 where
  pub host : String
  pub runtime : String
  pub vm_resources : String
  pub image : String
  pub image_digest : String
  pub server_cpus : String
  pub load_generator : String
  pub client_cpus : String
  pub cache : String
  pub workset : String
  pub requests_per_measurement : ℕ

abbrev or_later : Option String → Option String → Option String
or_later none o = o
or_later (some s) o = some s

-- What stands after the last `sep`, if there is one.
abbrev pub after_last : ℕ → String → Option String
after_last sep String.[] = none
after_last sep (String.◌∷◌ c s) =
    or_later (after_last sep s) (if eqb (code c) sep then some s else none)

abbrev or_whole : String → Option String → String
or_whole s none = s
or_whole s (some t) = t

-- `image.rsplit(":", 1)[-1]`
abbrev pub tag_of : String → String
tag_of image = or_whole image (after_last b':' image)

unfoldable pub measured_version : Environment → Option String
measured_version env =
    if (tag_of env.image == "latest") || (tag_of env.image == env.image)
    then none
    else some (tag_of env.image)

abbrev pub drift : Option String → Option String → Option (String × String)
drift none source = none
drift (some m) none = none
drift (some m) (some s) = if (m == "") || ((s == "") || (m == s)) then none else some (m, s)

-- `_drift_row`: the two versions of the row, if there is one
abbrev pub drift_row : Environment → Option String → Option (String × String)
drift_row env source = drift (measured_version env) source

-- `s[:n]`
abbrev chars : ℕ → String → String
chars zero s = ""
chars (suc n) String.[] = ""
chars (suc n) (String.◌∷◌ c s) = String.◌∷◌ c (chars n s)

abbrev short_digest : Option String → Result String String
short_digest none = err "list index out of range"
short_digest (some s) = ok (chars 12 s)

-- `s.removeprefix(p)`
abbrev cut_prefix : String → String → Option String
cut_prefix String.[] s = some s
cut_prefix (String.◌∷◌ c p) String.[] = none
cut_prefix (String.◌∷◌ c p) (String.◌∷◌ d s) =
    let rest = cut_prefix p s in if eqb (code c) (code d) then rest else none

abbrev removeprefix : String → String → String
removeprefix p s = or_whole s (cut_prefix p s)

-- What the table shows.
pub record EnvironmentTable : Type 0 where
  pub env : Environment
  pub short : String
  pub generator : String
  pub requests : ℕ
  pub drifted : Option (String × String)

unfoldable pub render_environment : Environment → Option String → ℕ → Result String EnvironmentTable
unfolding measured_version
render_environment env source requests = do
  short ← short_digest (after_first b':' env.image_digest)
  ok (record {
    env = env;
    short = short;
    generator = removeprefix "ghz " env.load_generator;
    requests = requests;
    drifted = drift_row env source;
  })
