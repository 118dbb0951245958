-- ===== src/Web/Tests.antt =====
-- Runs of the web worker, and its laws at them.
use allgres.Base.{◌-◌, true, false, Option, some, [], ◌∷◌, ◌≡◌, ◌↔◌, ◌⊎◌, arith, ltb, empty_map}
use allgres.Bytes.{Bytes, lit}
use allgres.Bytes.Compare.{bytes_key}
use allgres.Http.{HttpRequest, route}
use allgres.Http.Tests.{sample_request}
use allgres.Json.{Json, str}
use allgres.Web.Tickets.{sse_ticket_ttl, mint_sse_ticket, consume_sse_ticket, mint, consume, run}
use allgres.Web.Tickets.Laws.{consume_once, consume-mint}
use allgres.Web.Auth.{WebConfig, authorized, events_path}
use allgres.Web.Auth.Laws.{authorized_iff, Bears, HasTicket}
use allgres.Web.Api.{panics, api_route, body_json}
use allgres.Web.Api.Laws.{takes_keys, WritesBody, api_route-panics}

abbrev parse : Bytes → Option Json
parse s = some (str s)

abbrev config : WebConfig
config = record { token = lit "t"; mock_enabled = false }

consume_once_example :
    (consume_sse_ticket 9 (lit "t") (
      run
        (consume_sse_ticket 3 (lit "t") (mint_sse_ticket 1 (lit "t") empty_map)).0
        (consume 4 (lit "t") ∷ mint 5 (lit "u") ∷ []))).1
    ≡ false
consume_once_example =
    consume_once (lit "t") (mint_sse_ticket 1 (lit "t") empty_map) 3 9
      (consume 4 (lit "t") ∷ mint 5 (lit "u") ∷ []) (tt, ((λ h. ground arith), tt))

consume-mint_example :
    (consume_sse_ticket 9
      (lit "t")
      (run (mint_sse_ticket 1 (lit "t") empty_map) (mint 5 (lit "u") ∷ []))).1
    ≡ ltb (9 - 1) sse_ticket_ttl
consume-mint_example =
    consume-mint (lit "t") empty_map 1 9 (mint 5 (lit "u") ∷ [])
      (((λ h. ground arith), omega arith), tt)

authorized_iff_example : ((authorized sample_request config 5 empty_map).1 ≡ true) ↔ (
    Bears sample_request (lit "t")
    ⊎ ((route sample_request ≡ events_path) × HasTicket sample_request 5 empty_map))
authorized_iff_example = authorized_iff sample_request config 5 empty_map (λ h. cc)

abbrev run_request : HttpRequest
run_request = record { method = lit "POST"; path = lit "/api/v1/run"; headers = []; body = lit "x" }

api_route-panics_example :
    (api_route parse run_request ≡ panics)
    ↔ (WritesBody run_request × (takes_keys (body_json parse run_request) ≡ false))
api_route-panics_example = api_route-panics parse run_request
