-- ===== src/Worker/Rpc.antt =====
-- src/rpc.rs `handle_rpc_stream`: a request that the web worker sends over the socket; and the accept
-- loop of `allgres_runtime_main`.
pub mod Guarded
pub mod Gate
use allgres.Base.{Bool, ◌&&◌, Option, none, some, if◌then◌else◌, take, List, [], ◌∷◌}
use allgres.Bytes.{Bytes}
use allgres.Json.{Json}
use allgres.Utf8.{utf8_from}
use allgres.Http.{max_request_bytes}
use allgres.Worker.Session.{Database, Exec, ◌>>=◌, pure}
use allgres.Worker.Claims.{rpc_failure, dashboard_rpc}

module _ (db : Database) (disabled : Bool) (print : Json → Bytes) (parses : Bytes → Bool) where
  -- The reply. The bytes that the client sends are read to their end or to the limit; `none` is a
  -- read that fails. `parses` is whether a text is JSON.
  unfoldable pub handle_rpc_stream : Bool → Option Bytes → Exec Bytes
  handle_rpc_stream ready none = pure (rpc_failure print "rpc_read_failed")
  handle_rpc_stream ready (some sent) =
      let body : Bytes = take max_request_bytes sent in
      if utf8_from 0 body && parses body
      then if ready
        then dashboard_rpc db disabled print body
        else pure (rpc_failure print "extension_not_installed")
      else pure (rpc_failure print "invalid_json_request")

  -- The connections that wait, in their order, each with its reply.
  unfoldable pub serve : Bool → List (Option Bytes) → Exec (List Bytes)
  serve ready [] = pure []
  serve ready (c ∷ cs) =
      handle_rpc_stream ready c
      >>= (λ reply. serve ready cs >>= (λ replies. pure (reply ∷ replies)))
