-- ===== src/Web/Connection/Tests.antt =====
-- A connection that is served, and the laws of the listener at it.
use allgres.Base.{
  ◌⊎◌, ◌-◌, ltb, ℕ, ◌+◌, ◌^◌, ◌*◌, true, false, none, some, [], ◌∷◌, ◌≡◌, refl, arith, empty_map,
}
use allgres.Bytes.{Bytes, lit}
use allgres.Bytes.Compare.{bytes_key, same, strip_prefix, starts_with, same_ignoring_case}
use allgres.Bytes.Split.{split_first}
use allgres.Http.{HttpRequest, header, find_header, route, read_http_request}
use allgres.Http.Tests.{sample_connection, sample_read}
use allgres.Json.{obj, end, entry, text, str}
use allgres.Web.Auth.{WebConfig, constant_time_eq, authorized, csrf_ok, bears, origin_ok, diff_from}
use allgres.Web.Api.{get_route, api_route}
use allgres.Web.World.{World, read_failed}
use allgres.Web.Connection.{
  Server, read_and_dispatch, dispatch, check_origin, check_lockout, authorize, serve_api, call_api,
  handle_web_connection, stream_loop, stream_fuel, sse_total,
}
use allgres.Web.Connection.Gates.{Passed, NotLimited, handle_web_connection-calls}
use allgres.Web.Connection.Visits.{Visit, Stems, server_behind, reaches-Bears}
use allgres.Web.Auth.Laws.{Bears}
use allgres.Web.Auth.{events_path}
use allgres.Web.Tickets.{sse_ticket_ttl}
use allgres.Http.Form.{query_param}
use allgres.Http.{query}
use allgres.Web.Connection.Stream.{AtMost, sse_interval, stream_loop_total}

abbrev pub config : WebConfig
config = record { token = lit "t"; mock_enabled = false }

abbrev pub world : World
world = record {
  parse_json = λ s. some (str s);
  print_json = λ v. [];
  exchange = λ v. read_failed;
  dashboard_html = lit "<script nonce=\"__CSP_NONCE__\">";
  nonce = lit "n";
  connection = sample_connection;
  started = 0;
  at_rate = 1;
  at_lockout = 3;
  at_failure = 4;
  at_ticket = 5;
  at_stream = 6;
  head_written = true;
  stream = λ k. record { clock = k * 10 ^ 9 + 6; exchange = read_failed; written = true };
}

abbrev pub server : Server Bytes
server = record {
  windows = record { general = empty_map; auth_fail = empty_map };
  tickets = empty_map;
}

status_call :
    (handle_web_connection world config server none).calls
    ≡ obj (entry "action" (text "overview") end) ∷ []
unfolding handle_web_connection read_and_dispatch dispatch check_origin check_lockout authorize
    serve_api call_api authorized bears csrf_ok origin_ok constant_time_eq diff_from route header
    find_header get_route api_route same strip_prefix starts_with same_ignoring_case split_first
status_call = rw (sample_read, read_and_dispatch) refl

handle_web_connection-calls_example :
    (r : HttpRequest) × (read_http_request sample_connection 0 ≡ some r)
    × NotLimited world config server.windows none
    × Passed world config server none r
handle_web_connection-calls_example =
    handle_web_connection-calls world config server none (rw status_call (λ h. cc))

stream_loop_total_example : AtMost 30 (
    stream_loop stream_fuel
      (λ j. record { clock = 5 + j * sse_interval; exchange = read_failed; written = true })
      (5 + sse_total)
      0)
stream_loop_total_example =
    stream_loop_total
      (λ j. record { clock = 5 + j * sse_interval; exchange = read_failed; written = true }) 5
      (λ j. omega arith)

-- The first connection to the server.
abbrev first : Visit Bytes
first = record { world = world; ip = none }

reaches-Bears_example :
    (r : HttpRequest) × (read_http_request sample_connection 0 ≡ some r)
    × (Bears r (lit "t")
        ⊎ ((route r ≡ events_path)
            × ((t : Bytes) × (issued : ℕ) × (query_param (query r) (lit "ticket") ≡ some t)
                × (ltb (5 - issued) sse_ticket_ttl ≡ true)
                × Stems config server [] t issued)))
unfolding server_behind
reaches-Bears_example =
    reaches-Bears config server (λ e. ground (arith, e)) (λ t. refl) [] first
      (rw status_call (λ h. cc))
