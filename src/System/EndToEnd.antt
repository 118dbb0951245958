-- ===== src/System/EndToEnd.antt =====
-- From the bytes that a client sends the web worker, by way of the runtime worker, to the database
-- and back: src/http_protocol.rs, src/web.rs, src/rpc.rs and src/runtime_worker.rs together.
use allgres.Base.{◌+◌, Option, List, ◌∷◌, ◌≡◌, ap, ◌∙◌, Bool, Key}
use allgres.Bytes.{Bytes}
use allgres.Json.{Json}
use allgres.Http.{HttpRequest, request_deadline}
use allgres.Http.Pieces.{concat, Delivers}
use allgres.Http.Printed.{print_request}
use allgres.Http.RoundTrip.{IsSendable, read_http_request-print_request}
use allgres.Web.Api.{ask, api_route}
use allgres.Web.Auth.{WebConfig}
use allgres.Web.World.{World}
use allgres.Web.Connection.{Server, wrote, api_response, handle_web_connection}
use allgres.Web.Connection.Gates.{NotLimited, Passed}
use allgres.Web.Connection.Served.{handle_web_connection-Served}
use allgres.Worker.Session.{Database, Session}
use allgres.System.Answers.{connected, IsRequest, IsAnswered, rpc-answers}

-- What a client of the dashboard asks for is answered by the database: the bytes of a well-formed
-- request for the API, in whatever pieces they come by the deadline, if they pass every gate of the
-- web worker and stand for a call that is UTF-8 and JSON of at most 2^20 bytes, are answered by a
-- response with the value that the database gives to that call, as long as the runtime worker is
-- ready, drops its privileges, the commit raises no ERROR, and the value is read back as it was
-- written.
pub handle_web_connection-answers :
    {K : Type 0} ⦃e : Key K⦄ (db : Database) (parses : Bytes → Bool) (w : World) (s : Session)
    (cfg : WebConfig) (server : Server K) (ip : Option K) (r : HttpRequest) (req v : Json)
    (p : Bytes) (ps : List Bytes)
    → IsSendable r
    → concat (p ∷ ps) ≡ print_request r
    → Delivers w.connection (w.started + request_deadline) 0 (p ∷ ps)
    → NotLimited w cfg server.windows ip
    → Passed w cfg server ip r
    → api_route w.parse_json r ≡ ask req
    → IsRequest db parses w s req
    → IsAnswered db parses w s req v
    → (handle_web_connection (connected db parses w s) cfg server ip).reply
      ≡ wrote (api_response w v)
unfolding connected
handle_web_connection-answers db parses w s cfg server ip r req v p ps is_sendable cut d limited
      passed asked is_request answered =
    (handle_web_connection-Served (connected db parses w s) cfg r req asked server ip
      (read_http_request-print_request w.connection w.started r p ps is_sendable cut d) limited
      (record {
        in_api = passed.in_api;
        own_origin = passed.own_origin;
        not_locked = passed.not_locked;
        allowed = passed.allowed;
      })).0
    ∙ ap (λ a. wrote (api_response w a)) (rpc-answers db parses w s req v is_request answered)
