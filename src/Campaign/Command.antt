-- ===== src/Campaign/Command.antt =====
-- bench/strong/release_campaign.py: the command line that measures a group (`group_command`), and
-- that it carries the group's definition to the harness.
use Prim.Native.String
use cachelib_grpc_server.Common.{
  ℕ, zero, suc, String, ◌==◌, ◌≡◌, refl, subst, ◌∙◌, >>=-eq-ok, Bool, true, false, Option, none,
  some, List, [], ◌∷◌, ◌++◌, if◌then◌else◌, lookup, All, Result, ok, err, ◌>>=◌,
}
use cachelib_grpc_server.Campaign.Spec.{Kind, kv, http, Spec}

-- A word of a command line, by how it is made: a constant, a number in decimal, names joined by
-- commas, an image ID, a path.
pub data Arg : Type 0 where
  word : String → Arg
  number : ℕ → Arg
  names : List String → Arg
  image : String → Arg
  path : String → Arg

pub data KeyError : Type 0 where
  key_error : String → KeyError

abbrev image_of : String → Option String → Result KeyError Arg
image_of key none = err (key_error key)
image_of key (some i) = ok (image i)

-- `images[key]["id"]`
abbrev pub image_id : String → List (String × String) → Result KeyError Arg
image_id key images = image_of key (lookup key images)

abbrev engine_image_keys : List String
engine_image_keys = "redis" ∷ "valkey" ∷ "memcached" ∷ "dragonfly" ∷ "garnet" ∷ "kvrocks" ∷ []

abbrev image_flag : String → String
image_flag engine = String.◌++◌ "--" (String.◌++◌ engine "-image")

abbrev image_args : String → Option String → List Arg
image_args engine none = []
image_args engine (some i) = word (image_flag engine) ∷ image i ∷ []

-- `--<engine>-image` with its ID, for the engines that the campaign pins
abbrev engine_image : List (String × String) → String → List Arg
engine_image images engine = image_args engine (lookup engine images)

abbrev engine_images : List (String × String) → List String → List Arg
engine_images images [] = []
engine_images images (e ∷ es) = engine_image images e ++ engine_images images es

-- `if spec.get("flash_mb")`: zero counts as absent
abbrev flash_args : Option ℕ → List Arg
flash_args none = []
flash_args (some zero) = []
flash_args (some (suc n)) = word "--flash-mb" ∷ number (suc n) ∷ []

abbrev discard_args : Bool → List Arg
discard_args true = word "--discard-flash-files" ∷ []
discard_args false = []

abbrev script : Kind → String
script kv = "bench/strong/run_strong.py"
script http = "bench/strong/run_http.py"

abbrev pub common_args : Spec → Arg → Arg → String → List Arg → List Arg
common_args spec grpc go output rest =
    path "python"
    ∷ path (script spec.kind)
    ∷ word "--grpc-image"
    ∷ grpc
    ∷ word "--go-client-image"
    ∷ go
    ∷ word "--cases"
    ∷ names spec.cases
    ∷ word "--reps"
    ∷ number spec.reps
    ∷ word "--seconds"
    ∷ number spec.seconds
    ∷ word "--warmup"
    ∷ number spec.warmup
    ∷ word "--output"
    ∷ path output
    ∷ rest

abbrev pub kv_args : Spec → List (String × String) → Arg → List Arg
kv_args spec images python =
    word "--engines"
    ∷ names spec.engines
    ∷ word "--cache-mb"
    ∷ number spec.cache_mb
    ∷ word "--memory-mb"
    ∷ number spec.memory_mb
    ∷ word "--correctness-client-image"
    ∷ python
    ∷ (flash_args spec.flash_mb
        ++ (discard_args spec.discard_flash ++ engine_images images engine_image_keys))

abbrev pub http_args : Arg → Arg → List Arg
http_args python nginx =
    word "--utility-image"
    ∷ python
    ∷ word "--adapter-image"
    ∷ python
    ∷ word "--nginx-image"
    ∷ nginx
    ∷ []

abbrev pub kind_args : Kind → Spec → List (String × String) → Result KeyError (List Arg)
kind_args kv spec images = do python ← image_id "python" images; ok (kv_args spec images python)
kind_args http spec images = do
  python ← image_id "python" images
  nginx ← image_id "nginx" images
  ok (http_args python nginx)

unfoldable pub group_command : Spec → List (String × String) → String → Result KeyError (List Arg)
group_command spec images output = do
  grpc ← image_id "grpc" images
  go ← image_id "go" images
  rest ← kind_args spec.kind spec images
  ok (common_args spec grpc go output rest)

-- The argument that follows a flag.
abbrev first : List Arg → Option Arg
first [] = none
first (a ∷ args) = some a

abbrev pub option : String → List Arg → Option Arg
option flag [] = none
option flag (word w ∷ args) = if w == flag then first args else option flag args
option flag (a ∷ args) = option flag args

abbrev pub has_word : String → List Arg → Bool
has_word flag [] = false
has_word flag (word w ∷ args) = if w == flag then true else has_word flag args
has_word flag (a ∷ args) = has_word flag args

abbrev pub flash_option : Option ℕ → Option Arg
flash_option none = none
flash_option (some zero) = none
flash_option (some (suc n)) = some (number (suc n))

-- What the harness must be told of a KV group.
pub record Carries (spec : Spec) (args : List Arg) : Type 0 where
  pub cases : option "--cases" args ≡ some (names spec.cases)
  pub engines : option "--engines" args ≡ some (names spec.engines)
  pub reps : option "--reps" args ≡ some (number spec.reps)
  pub seconds : option "--seconds" args ≡ some (number spec.seconds)
  pub warmup : option "--warmup" args ≡ some (number spec.warmup)
  pub cache_mb : option "--cache-mb" args ≡ some (number spec.cache_mb)
  pub memory_mb : option "--memory-mb" args ≡ some (number spec.memory_mb)
  pub flash_mb : option "--flash-mb" args ≡ flash_option spec.flash_mb
  pub discard_flash : has_word "--discard-flash-files" args ≡ spec.discard_flash

option-image_args :
    (flag e : String) (o : Option String) (rest : List Arg)
    → (image_flag e == flag) ≡ false
    → option flag (image_args e o ++ rest) ≡ option flag rest
option-image_args flag e none rest h = refl
option-image_args flag e (some i) rest h = rw h

has_word-image_args :
    (flag e : String) (o : Option String) (rest : List Arg)
    → (image_flag e == flag) ≡ false
    → has_word flag (image_args e o ++ rest) ≡ has_word flag rest
has_word-image_args flag e none rest h = refl
has_word-image_args flag e (some i) rest h = rw h

-- The images of engines hide no other flag.
option-engine_images :
    (flag : String) (images : List (String × String)) (es : List String)
    → All (λ e. (image_flag e == flag) ≡ false) es
    → (option flag (engine_images images es) ≡ none)
      × (has_word flag (engine_images images es) ≡ false)
option-engine_images flag images [] h = (refl, refl)
option-engine_images flag images (e ∷ es) h =
    let o = lookup e images in
    let rest = engine_images images es in
    let (a, b) = option-engine_images flag images es h.1 in
    (option-image_args flag e o rest h.0 ∙ a, has_word-image_args flag e o rest h.0 ∙ b)

no_flag :
    (images : List (String × String))
    → (option "--flash-mb" (engine_images images engine_image_keys) ≡ none)
      × (has_word "--discard-flash-files" (engine_images images engine_image_keys) ≡ false)
no_flag images = (
  (option-engine_images "--flash-mb" images engine_image_keys
      (refl, (refl, (refl, (refl, (refl, (refl, tt))))))).0,
  (option-engine_images "--discard-flash-files" images engine_image_keys
      (refl, (refl, (refl, (refl, (refl, (refl, tt))))))).1,
)

abbrev options_tail : Option ℕ → Bool → List (String × String) → List Arg
options_tail flash discard images =
    flash_args flash ++ (discard_args discard ++ engine_images images engine_image_keys)

option-discard :
    (discard : Bool) (images : List (String × String))
    → (option "--flash-mb" (options_tail none discard images) ≡ none)
      × (has_word "--discard-flash-files" (options_tail none discard images) ≡ discard)
option-discard true images = ((no_flag images).0, refl)
option-discard false images = no_flag images

option-flash :
    (flash : Option ℕ) (discard : Bool) (images : List (String × String))
    → (option "--flash-mb" (options_tail flash discard images) ≡ flash_option flash)
      × (has_word "--discard-flash-files" (options_tail flash discard images) ≡ discard)
option-flash none discard images = option-discard discard images
option-flash (some zero) discard images = option-discard discard images
option-flash (some (suc n)) discard images = (refl, (option-discard discard images).1)

image_of-image :
    (key : String) (o : Option String) {a : Arg}
    → image_of key o ≡ ok a
    → (i : String) × (a ≡ image i)
image_of-image key none h = cc
image_of-image key (some i) h = (i, cc)

command-Carries :
    (spec : Spec) (images : List (String × String)) (output i j k : String)
    → Carries spec (common_args spec (image i) (image j) output (kv_args spec images (image k)))
command-Carries spec images output i j k =
    let (flash, discard) = option-flash spec.flash_mb spec.discard_flash images in
    record {
      cases = refl;
      engines = refl;
      reps = refl;
      seconds = refl;
      warmup = refl;
      cache_mb = refl;
      memory_mb = refl;
      flash_mb = flash;
      discard_flash = discard;
    }

kind_args-kv :
    (kind : Kind) (spec : Spec) (images : List (String × String)) {args : List Arg}
    → kind ≡ kv
    → kind_args kind spec images ≡ ok args
    → (k : String) × (kv_args spec images (image k) ≡ args)
kind_args-kv kv spec images e h =
    let (a, found, rest) = >>=-eq-ok (image_id "python" images) _ h in
    let (i, e') = image_of-image "python" (lookup "python" images) found in (i, cc)
kind_args-kv http spec images e h = absurd (cc)

-- The command of a KV group gives the harness every number, case and engine of the group's
-- definition: a file budget exactly when the definition has one that is not zero, and the flag to
-- discard files exactly when the definition asks for it.
pub group_command-Carries :
    (spec : Spec) (images : List (String × String)) (output : String) {args : List Arg}
    → spec.kind ≡ kv
    → group_command spec images output ≡ ok args
    → Carries spec args
unfolding group_command
group_command-Carries spec images output e h =
    let (grpc, g, h1) = >>=-eq-ok (image_id "grpc" images) _ h in
    let (go, o, h2) = >>=-eq-ok (image_id "go" images) _ h1 in
    let (rest, r, h3) = >>=-eq-ok (kind_args spec.kind spec images) _ h2 in
    let (i, ei) = image_of-image "grpc" (lookup "grpc" images) g in
    let (j, ej) = image_of-image "go" (lookup "go" images) o in
    let (k, ek) = kind_args-kv spec.kind spec images e r in
    subst (Carries spec) (cc) (command-Carries spec images output i j k)
