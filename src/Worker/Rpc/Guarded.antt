-- ===== src/Worker/Rpc/Guarded.antt =====
-- The socket's handler keeps to the policy.
use allgres.Base.{Bool, true, false, ◌&&◌, Option, none, some, List, [], ◌∷◌, take, if◌then◌else◌}
use allgres.Bytes.{Bytes}
use allgres.Json.{Json}
use allgres.Utf8.{utf8_from}
use allgres.Http.{max_request_bytes}
use allgres.Worker.Session.{Database, Exec}
use allgres.Worker.Guard.{Keeps, bind_Triple, pure-Keeps}
use allgres.Worker.Guard.Queues.{dashboard_rpc-Keeps}
use allgres.Worker.Rpc.{handle_rpc_stream, serve}

module _ (db : Database) (print : Json → Bytes) (parses : Bytes → Bool) where
  if-Keeps : {m n : Exec Bytes} (b : Bool) → Keeps db m → Keeps db n → Keeps db (if b then m else n)
  if-Keeps true h k = h
  if-Keeps false h k = k

  handle_rpc_stream-Keeps :
      (ready : Bool) (sent : Option Bytes)
      → Keeps db (handle_rpc_stream db false print parses ready sent)
  unfolding handle_rpc_stream
  handle_rpc_stream-Keeps ready none = pure-Keeps db _
  handle_rpc_stream-Keeps ready (some sent) =
      if-Keeps (utf8_from 0 (take max_request_bytes sent) && parses (take max_request_bytes sent))
        (if-Keeps ready (dashboard_rpc-Keeps db print _) (pure-Keeps db _)) (pure-Keeps db _)

  pub serve-Keeps :
      (ready : Bool) (cs : List (Option Bytes)) → Keeps db (serve db false print parses ready cs)
  unfolding serve
  serve-Keeps ready [] = pure-Keeps db []
  serve-Keeps ready (c ∷ cs) =
      bind_Triple db (handle_rpc_stream-Keeps ready c)
        (λ reply. bind_Triple db (serve-Keeps ready cs) (λ replies. pure-Keeps db _))
