-- ===== src/Web/World.antt =====
-- src/web.rs: what is outside of the web worker, and `rpc`, its side of the runtime worker's socket.
use Prim.Native.String.{String}
use allgres.Base.{ℕ, Bool, false, Option, ◌++◌, value_or}
use allgres.Bytes.{Bytes, lit}
use allgres.Http.{Connection}
use allgres.Json.{Json, obj, end, entry, str, text}

-- What the socket of the runtime worker does with a request.
pub data Exchange : Type 0 where
  unreachable : Bytes → Exchange
  write_failed read_failed : Exchange
  received : Bytes → Exchange

-- One round of the event stream: the clock at its head, the exchange with the runtime worker, and
-- whether the frame was written.
pub record StreamRound : Type 0 where
  pub clock : ℕ
  pub exchange : Exchange
  pub written : Bool

-- What is outside the worker: serde_json, the socket of the runtime worker, the page, the clock at
-- each place that reads it, random bytes, and the connection.
pub record World : Type 0 where
  pub parse_json : Bytes → Option Json
  pub print_json : Json → Bytes
  pub exchange : Json → Exchange
  pub dashboard_html : Bytes
  pub nonce : Bytes
  pub connection : Connection
  pub started : ℕ
  pub at_rate : ℕ
  pub at_lockout : ℕ
  pub at_failure : ℕ
  pub at_ticket : ℕ
  pub at_stream : ℕ
  pub head_written : Bool
  pub stream : ℕ → StreamRound

abbrev pub failure : String → Json
failure error = obj (entry "ok" (Json.bool false) (entry "error" (text error) end))

-- The client's side of the socket.
unfoldable pub rpc : World → Json → Json
rpc w req = elim (w.exchange req) [
  | unreachable e ↦
      obj
        (entry "ok" (Json.bool false) (entry "error" (str (lit "runtime unavailable: " ++ e)) end))
  | write_failed ↦ failure "rpc_write_failed"
  | read_failed ↦ failure "rpc_read_failed"
  | received out ↦ value_or (failure "invalid_rpc_response") (w.parse_json out)
]
