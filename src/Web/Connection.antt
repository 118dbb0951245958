-- ===== src/Web/Connection.antt =====
-- src/web.rs `handle_web_connection`: one connection, from the rate limit to the answer. The
-- outcome lists the requests that were sent to the runtime worker.
pub mod Gates
pub mod Served
pub mod Plain
pub mod Framed
pub mod Provenance
pub mod Visits
pub mod Slots
pub mod Stream
pub mod Tests
use Prim.Native.String.{String}
use allgres.Base.{
  ℕ, zero, suc, ◌+◌, ◌*◌, ◌^◌, Bool, true, false, not, ◌&&◌, ◌||◌, Option, none, some, List, [],
  ◌∷◌, ◌++◌, ltb, if◌then◌else◌, value_or, Key, take, length, Map,
}
use allgres.Bytes.{Bytes, lit}
use allgres.Bytes.Compare.{same, starts_with}
use allgres.Bytes.Search.{find, before, after}
use allgres.Http.{HttpRequest, route, Connection, read_http_request}
use allgres.Json.{Json, num, str, obj, end, entry, text, get_bool}
use allgres.Web.Tickets.{Tickets, mint_sse_ticket, consume_sse_ticket}
use allgres.Web.RateLimit.{RateWindows, rate_limited, auth_failures_exceeded, record_auth_failure}
use allgres.Web.Auth.{WebConfig, authorized, csrf_ok, events_path}
use allgres.Web.Api.{ApiCall, ask, answer, no_route, panics, api_route}
use allgres.Web.Mock.{mock_completion, mock_token, mock_embedding}
use allgres.Web.World.{World, StreamRound, rpc}
use allgres.Web.Respond.{Response, json_response, error_response, error_body, line}

pub data Reply : Type 0 where
  closed : Reply
  wrote : Response → Reply
  streamed : ℕ → Reply
  panicked : Reply

pub record Server (K : Type 0) : Type 0 where
  pub windows : RateWindows K
  pub tickets : Tickets

pub record Outcome (K : Type 0) : Type 0 where
  pub server : Server K
  pub reply : Reply
  pub calls : List Json

abbrev pub replies : {K : Type 0} → Server K → Response → Outcome K
replies s r = record { server = s; reply = wrote r; calls = [] }

-- `str::replace`, with fuel for each byte.
replace : ℕ → Bytes → Bytes → Bytes → Bytes
replace zero n by s = s
replace (suc fuel) n by s = elim (after n s) [
  | none ↦ s
  | some rest ↦ before n s ++ (by ++ replace fuel n by rest)
]

pub page : World → Response
page w = record {
  status = lit "200 OK";
  content_type = lit "text/html; charset=utf-8";
  body = replace (length w.dashboard_html) (lit "__CSP_NONCE__") w.nonce w.dashboard_html;
  extra =
      lit "Content-Security-Policy: default-src 'none'; script-src 'nonce-"
      ++ (w.nonce
          ++ (lit "'; style-src 'nonce-"
              ++ (w.nonce
                  ++ line
                      "'; connect-src 'self'; img-src 'self' data:; base-uri 'none'; form-action 'none'; frame-ancestors 'none'")));
}

abbrev pub with_extra : Response → Bytes → Response
with_extra r extra = record r { extra = extra }

abbrev pub not_found : Response
not_found = error_response "404 Not Found" "not_found"

abbrev pub rate_limited_response : String → Response
rate_limited_response retry =
    with_extra (error_response "429 Too Many Requests" "rate_limited") (line retry)

abbrev pub ok_json : World → Json → Response
ok_json w v = json_response "200 OK" (w.print_json v)

-- 30 s, in nanoseconds.
abbrev pub sse_total : ℕ
sse_total = 30 * 10 ^ 9

abbrev pub events_request : Json
events_request = obj (entry "action" (text "events") end)

-- The loop of `stream_events` from its k-th round on: how many snapshots were asked for, none if
-- the fuel ran out.
pub stream_loop : ℕ → (ℕ → StreamRound) → ℕ → ℕ → Option ℕ
stream_loop zero rounds deadline k = none
stream_loop (suc fuel) rounds deadline k =
    let rest = stream_loop fuel rounds deadline (k + 1) in
    if ltb (rounds k).clock deadline
    then if (rounds k).written then rest else some (k + 1)
    else some k

-- A round sleeps for a second, so that there are at most 30 of them.
abbrev pub stream_fuel : ℕ
stream_fuel = 32

pub stream_events : World → ℕ
stream_events w =
    if w.head_written
    then value_or 0 (stream_loop stream_fuel w.stream (w.at_stream + sse_total) 0)
    else 0

repeat : ℕ → Json → List Json
repeat zero v = []
repeat (suc n) v = v ∷ repeat n v

module _ (w : World) where
  abbrev pub api_response : Json → Response
  api_response v = elim (get_bool (lit "ok") v) [
    | none ↦ json_response "200 OK" (w.print_json v)
    | some b ↦ json_response (if b then "200 OK" else "400 Bad Request") (w.print_json v)
  ]

  pub mock_oauth : HttpRequest → Response
  mock_oauth r = elim (mock_token r) [
    | none ↦ json_response "401 Unauthorized" (lit "{\"error\":\"invalid_client\"}")
    | some v ↦ ok_json w v
  ]

module _ {K : Type 0} ⦃e : Key K⦄ (w : World) (cfg : WebConfig) where
  issue_ticket : Server K → HttpRequest → Outcome K
  issue_ticket s r =
      if not (same r.method (lit "POST"))
      then replies s (
          with_extra (error_response "405 Method Not Allowed" "method_not_allowed")
            (line "Allow: POST"))
      else replies (record s { tickets = mint_sse_ticket w.at_ticket w.nonce s.tickets })
          (ok_json w (
            obj (
              entry "ok" (Json.bool true)
                (entry "ticket" (str w.nonce) (entry "expires_in" (num (lit "30")) end)))))

  send_events : Server K → Outcome K
  send_events s = record {
    server = s;
    reply = streamed (stream_events w);
    calls = repeat (stream_events w) events_request;
  }

  call_api : Server K → ApiCall → Outcome K
  call_api s (ask req) = record {
    server = s;
    reply = wrote (api_response w (rpc w req));
    calls = req ∷ [];
  }
  call_api s (answer v) = replies s (api_response w v)
  call_api s no_route = replies s not_found
  call_api s panics = record { server = s; reply = panicked; calls = [] }

  -- Behind every gate.
  serve_api : Server K → HttpRequest → Outcome K
  serve_api s r =
      if same (route r) (lit "/api/v1/events/ticket")
      then issue_ticket s r
      else if same (route r) events_path
      then send_events s
      else call_api s (api_route w.parse_json r)

  record_failure : Server K → Option K → Server K
  record_failure s none = s
  record_failure s (some ip) = record s { windows = record_auth_failure s.windows ip w.at_failure }

  unauthorized : Server K → Option K → Outcome K
  unauthorized s ip = replies (record_failure s ip) (
      with_extra (error_response "401 Unauthorized" "unauthorized")
        (line "WWW-Authenticate: Bearer"))

  authorize : Server K → Option K → HttpRequest → Outcome K
  authorize s ip r =
      let (tickets, allowed) = authorized r cfg w.at_ticket s.tickets in
      let s' = record s { tickets = tickets } in
      if allowed then serve_api s' r else unauthorized s' ip

  check_lockout : Server K → Option K → HttpRequest → Outcome K
  check_lockout s none r = authorize s none r
  check_lockout s (some ip) r =
      let (windows, locked) = auth_failures_exceeded s.windows ip w.at_lockout in
      let s' = record s { windows = windows } in
      if locked
      then replies s' (rate_limited_response "Retry-After: 300")
      else authorize s' (some ip) r

  check_origin : Server K → Option K → HttpRequest → Outcome K
  check_origin s ip r =
      if not (csrf_ok r)
      then replies s (error_response "403 Forbidden" "cross_origin_request_rejected")
      else check_lockout s ip r

  mock : Server K → Response → Outcome K
  mock s r = replies s (if not cfg.mock_enabled then not_found else r)

  dispatch : Server K → Option K → HttpRequest → Outcome K
  dispatch s ip r =
      if same r.method (lit "OPTIONS")
      then replies s (
          with_extra (error_response "405 Method Not Allowed" "method_not_allowed")
            (line "Allow: GET, POST, PATCH"))
      else if same (route r) (lit "/healthz")
      then replies s (json_response "200 OK" (lit "{\"ok\":true}"))
      else if same (route r) (lit "/mock/chat/completions")
          || same (route r) (lit "/mock/slow/chat/completions")
      then mock s (ok_json w mock_completion)
      else if same (route r) (lit "/mock/oauth/token")
      then mock s (mock_oauth w r)
      else if same (route r) (lit "/mock/embeddings")
      then mock s (ok_json w (mock_embedding w.parse_json r))
      else if same (route r) (lit "/")
      then replies s (page w)
      else if not (starts_with (lit "/api/v1/") (route r))
      then replies s not_found
      else check_origin s ip r

  read_and_dispatch : Server K → Option K → Outcome K
  read_and_dispatch s ip = elim (read_http_request w.connection w.started) [
    | none ↦ record { server = s; reply = closed; calls = [] }
    | some r ↦ dispatch s ip r
  ]

  pub handle_web_connection : Server K → Option K → Outcome K
  handle_web_connection s none = read_and_dispatch s none
  handle_web_connection s (some ip) =
      let (windows, limited) = rate_limited s.windows ip w.at_rate in
      let s' = record s { windows = windows } in
      if limited
      then replies s' (rate_limited_response "Retry-After: 60")
      else read_and_dispatch s' (some ip)
