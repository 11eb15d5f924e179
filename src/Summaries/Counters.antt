-- ===== src/Summaries/Counters.antt =====
-- bench/strong/summarize.py: what is read of a text of the cgroup (`cgroup`, `io_counters`), and the
-- growth of a counter (`counter_delta`). A text is the words of its lines.
pub mod Peaks
use Prim.Native.Char.{code}
use cachelib_grpc_server.Common.{
  ℕ, ◌+◌, ◌-◌, ◌*◌, String, ◌==◌, Bool, true, false, not, ◌&&◌, ◌||◌, Option, none, some, List, [],
  ◌∷◌, ltb, is_some, is_empty, elem, before_first, after_first, lookup, insert, if◌then◌else◌,
  Result, ok, err, ◌>>=◌,
}
use cachelib_grpc_server.Summaries.Integers.{ℤ, minus}

-- A word of decimal digits, of which `n` have been read, and its number.
abbrev digits_from : ℕ → String → Option ℕ
digits_from n String.[] = some n
digits_from n (String.◌∷◌ c s) =
    if ltb (code c) b'0' || ltb b'9' (code c)
    then none
    else digits_from (n * 10 + (code c - b'0')) s

-- `int(word)`, for a word of digits
abbrev pub int : String → Option ℕ
int String.[] = none
int (String.◌∷◌ c s) = digits_from 0 (String.◌∷◌ c s)

pub record Usage : Type 0 where
  pub usage_usec : Option ℕ
  pub memory_current : Option ℕ
  pub memory_peak : Option ℕ

abbrev pub nothing : Usage
nothing = record { usage_usec = none; memory_current = none; memory_peak = none }

-- `rows.setdefault(key, value)`
abbrev pub set_default : Option ℕ → ℕ → Option ℕ
set_default none n = some n
set_default (some m) n = some m

abbrev pub with_number : Option ℕ → Usage → Usage
with_number none u = u
with_number (some n) u = record u {
  memory_current = set_default u.memory_current n;
  memory_peak = some n;
}

abbrev pub with_usage : Option ℕ → Usage → Result String Usage
with_usage none u = err "invalid literal for int()"
with_usage (some n) u = ok (record u { usage_usec = some n })

-- One line of the text.
abbrev pub read_line : List String → Usage → Result String Usage
read_line [] u = ok u
read_line (word ∷ []) u = ok (with_number (int word) u)
read_line (name ∷ value ∷ []) u = if name == "usage_usec" then with_usage (int value) u else ok u
read_line (a ∷ b ∷ c ∷ words) u = ok u

unfoldable pub read_lines : List (List String) → Usage → Result String Usage
read_lines [] u = ok u
read_lines (line ∷ lines) u = do next ← read_line line u; read_lines lines next

abbrev pub cgroup : List (List String) → Result String Usage
cgroup lines = read_lines lines nothing

-- `counter_delta`: the first of the names that the later statistics have
abbrev since : ℕ → Option ℕ → ℤ
since after none = minus after 0
since after (some before) = minus after before

abbrev or_else : Option ℤ → Option ℤ → Option ℤ
or_else none d = d
or_else (some z) d = some z

abbrev delta_of : Option ℕ → Option ℕ → Option ℤ
delta_of before none = none
delta_of before (some after) = some (since after before)

abbrev pub counter_delta : List (String × ℕ) → List (String × ℕ) → List String → Option ℤ
counter_delta before after [] = none
counter_delta before after (name ∷ names) =
    or_else (delta_of (lookup name before) (lookup name after)) (counter_delta before after names)

-- `io_counters`
abbrev io_names : List String
io_names = "rbytes" ∷ "wbytes" ∷ "rios" ∷ "wios" ∷ []

abbrev pub Totals : Type 0
Totals = List (String × ℕ)

abbrev zeros : Totals
zeros = ("rbytes", 0) ∷ ("wbytes", 0) ∷ ("rios", 0) ∷ ("wios", 0) ∷ []

abbrev pub value_or_zero : Option ℕ → ℕ
value_or_zero none = 0
value_or_zero (some n) = n

abbrev added : String → Option ℕ → Totals → Result String Totals
added name none totals = err "invalid literal for int()"
added name (some n) totals = ok (insert name (value_or_zero (lookup name totals) + n) totals)

abbrev add_value : String → Option String → Totals → Result String Totals
add_value name none totals = ok totals
add_value name (some value) totals =
    if elem name io_names then added name (int value) totals else ok totals

-- `field.partition("=")`
abbrev add_fields : List String → Totals → Result String Totals
add_fields [] totals = ok totals
add_fields (field ∷ fields) totals = do
  next ← add_value (before_first b'=' field) (after_first b'=' field) totals
  add_fields fields next

abbrev io_line : List String → Totals → Result String Totals
io_line [] totals = ok totals
io_line (device ∷ fields) totals =
    if is_some (after_first b':' device) then add_fields fields totals else ok totals

abbrev io_lines : List (List String) → Totals → Result String Totals
io_lines [] totals = ok totals
io_lines (line ∷ lines) totals = do next ← io_line line totals; io_lines lines next

abbrev pub io_counters : List (List String) → Result String Totals
io_counters lines = io_lines lines zeros
