-- ===== src/System/Answers.antt =====
-- What the database answers comes back to the web worker: `rpc` of src/web.rs over
-- `handle_rpc_stream` of src/rpc.rs.
use allgres.Base.{
  take_all, Bool, true, false, some, [], ◌∷◌, ◌≡◌, refl, ap, ◌∙◌, length, ◌≤◌, if◌then◌else◌,
}
use allgres.Bytes.{Bytes}
use allgres.Json.{Json, bool}
use allgres.Utf8.{IsUtf8}
use allgres.Http.{max_request_bytes}
use allgres.Web.World.{World, Exchange, received, rpc}
use allgres.Worker.Session.{
  begin, assume, Database, value, Session, Outcome, returns, unwinds, Exec, ◌>>=◌, next, pure, send,
  spi, spi-value, drop_privileges, transaction, commit, is_raised, end_transaction,
  end_transaction-unraised, is_true,
}
use allgres.Worker.Claims.{dropped_or, dashboard_rpc, rpc_reply, rpc_failure}
use allgres.Worker.Rpc.{handle_rpc_stream}
use allgres.Worker.Rpc.Gate.{rpc_call}

-- What the client reads to the end: the reply, or nothing where an ERROR ends the worker.
abbrev read_from : Session × Outcome Bytes → Exchange
read_from (s, returns reply) = received reply
read_from (s, unwinds e) = received []

rpc-received :
    (w : World) (req : Json) {out : Bytes} {v : Json}
    → w.exchange req ≡ received out
    → w.parse_json out ≡ some v
    → rpc w req ≡ v
unfolding rpc
rpc-received w req e p = rw (rpc, e, p) refl

module _ (db : Database) (parses : Bytes → Bool) (w : World) (s : Session) where
  -- The socket, with the runtime worker at its other end.
  unfoldable pub connected : World
  connected = record w {
    exchange = λ req.
        read_from (handle_rpc_stream db false w.print_json parses true (some (w.print_json req)) s);
  }

  -- The session behind the drop of privileges.
  abbrev pub dropped_session : Session
  dropped_session = send assume (send begin s)

  dashboard_rpc-value :
      (body : Bytes) (v : Json)
      → db (assume ∷ begin ∷ s.log) ≡ value (bool true)
      → db (rpc_call body ∷ assume ∷ begin ∷ s.log) ≡ value v
      → is_raised (db (commit ∷ rpc_call body ∷ assume ∷ begin ∷ s.log)) ≡ false
      → dashboard_rpc db false w.print_json body s
        ≡ (send (rpc_call body) dropped_session, returns (w.print_json v))
  unfolding dashboard_rpc dropped_or drop_privileges transaction
  dashboard_rpc-value body v d a c =
      ap (end_transaction db) (
        ap (λ o. next if_dropped (next (λ r. pure (is_true r)) o))
          (spi-value db assume (send begin s) d)
        ∙ ap (next (λ r. pure (rpc_reply w.print_json r)))
            (spi-value db (rpc_call body) dropped_session a))
      ∙ end_transaction-unraised db (send (rpc_call body) dropped_session) (w.print_json v) c
    where
      if_dropped : Bool → Exec Bytes
      if_dropped b =
          if b
          then spi db (rpc_call body) >>= (λ r. pure (rpc_reply w.print_json r))
          else pure (rpc_failure w.print_json "privilege_drop_failed")

  -- The request that fits, and is JSON that the reader takes.
  pub record IsRequest (req : Json) : Type 0 where
    pub fits : length (w.print_json req) ≤ max_request_bytes
    pub decoded : IsUtf8 (w.print_json req)
    pub parsed : parses (w.print_json req) ≡ true

  -- The database agrees to the drop of privileges, answers the request and commits it.
  pub record IsAnswered (req v : Json) : Type 0 where
    pub drops : db (assume ∷ begin ∷ s.log) ≡ value (bool true)
    pub answers : db (rpc_call (w.print_json req) ∷ assume ∷ begin ∷ s.log) ≡ value v
    pub commits :
        is_raised (db (commit ∷ rpc_call (w.print_json req) ∷ assume ∷ begin ∷ s.log)) ≡ false
    pub read_back : w.parse_json (w.print_json v) ≡ some v

  handle_rpc_stream-value :
      (req v : Json)
      → IsRequest req
      → IsAnswered req v
      → handle_rpc_stream db false w.print_json parses true (some (w.print_json req)) s
        ≡ (send (rpc_call (w.print_json req)) dropped_session, returns (w.print_json v))
  unfolding handle_rpc_stream
  handle_rpc_stream-value req v h k =
      rw (take_all max_request_bytes (w.print_json req) h.fits, h.decoded, h.parsed)
        (dashboard_rpc-value (w.print_json req) v k.drops k.answers k.commits)

  -- The web worker is given the very value that the database answers a request with: if the request
  -- is UTF-8 and JSON of at most 2^20 bytes, privileges are dropped, the commit raises no ERROR, and
  -- the value is read back as
  -- it was written.
  pub rpc-answers : (req v : Json) → IsRequest req → IsAnswered req v → rpc connected req ≡ v
  unfolding connected
  rpc-answers req v h k =
      rpc-received connected req (ap read_from (handle_rpc_stream-value req v h k)) k.read_back
