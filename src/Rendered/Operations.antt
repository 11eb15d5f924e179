-- ===== src/Rendered/Operations.antt =====
-- bench/render.py: the table of the operations and the figure derived from it (`render_ops`,
-- `render_get_vs_ping`).
use cachelib_grpc_server.Common.{
  ℕ, ◌*◌, String, Option, none, some, List, [], ◌∷◌, eqb, lookup, if◌then◌else◌, Result, ok, err,
  ◌>>=◌,
}
use cachelib_grpc_server.Reports.Floats.{round}
use cachelib_grpc_server.Summaries.Integers.{ℤ, minus}
use cachelib_grpc_server.Rendered.Rounding.{round_half_up}

-- One operation of the measurement. Its times and its rate are written without the point.
pub record Operation : Type 0 where
  pub rps : ℕ
  pub p50 : ℕ
  pub p99 : ℕ
  pub p999 : ℕ
  pub count : ℕ
  pub successes : ℕ

-- OP_LABELS
abbrev pub op_labels : List (String × String)
op_labels =
    ("get", "`Get` (100% hit)")
    ∷ ("set", "`Set`")
    ∷ ("incr", "`Incr` (rate-limit bucket)")
    ∷ ("ping", "`Ping` (transport floor)")
    ∷ []

pub record OpLine : Type 0 where
  pub label : String
  pub rps : ℕ
  pub p50 : ℕ
  pub p99 : ℕ
  pub p999 : ℕ
  pub errors : ℤ

abbrev found : String → Option Operation → Result String Operation
found key none = err key
found key (some o) = ok o

-- `ops[key]`
abbrev pub operation : String → List (String × Operation) → Result String Operation
operation key ops = found key (lookup key ops)

module _ (digits : ℕ) where
  unfoldable pub op_lines :
      List (String × Operation) → List (String × String) → Result String (List OpLine)
  op_lines ops [] = ok []
  op_lines ops ((key, label) ∷ labels) = do
    o ← operation key ops
    lines ← op_lines ops labels
    ok (
        record {
          label = label;
          rps = round_half_up o.rps digits 0;
          p50 = round_half_up o.p50 digits 2;
          p99 = round_half_up o.p99 digits 2;
          p999 = round_half_up o.p999 digits 2;
          errors = minus o.count o.successes;
        }
        ∷ lines)

  unfoldable pub render_ops : List (String × Operation) → Result String (List OpLine)
  unfolding op_lines
  render_ops ops = op_lines ops op_labels

-- `100.0 * ops["get"]["rps"] / ops["ping"]["rps"]`, without digits after the point
unfoldable pub render_get_vs_ping : List (String × Operation) → Result String ℕ
render_get_vs_ping ops = do
  get ← operation "get" ops
  ping ← operation "ping" ops
  if eqb ping.rps 0 then err "float division by zero" else ok (round (100 * get.rps) ping.rps)
