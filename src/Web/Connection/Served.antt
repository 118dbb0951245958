-- ===== src/Web/Connection/Served.antt =====
-- A call of the API that passes every gate is served.
use allgres.Base.{
  true, false, Option, none, some, [], ◌∷◌, ◌≡◌, refl, ◌∙◌, arith, Key, Bool-cases, inl, inr,
}
use allgres.Bytes.{Bytes, lit}
use allgres.Bytes.Compare.{same, same_iff, starts_with}
use allgres.Http.{HttpRequest, route, read_http_request}
use allgres.Json.{Json}
use allgres.Web.Api.{ask, no_route, get_route, post_route, api_route}
use allgres.Web.RateLimit.{rate_limited}
use allgres.Web.RateLimit.Lockout.{auth_failures_exceeded-rate_limited}
use allgres.Web.Auth.{WebConfig, authorized, events_path}
use allgres.Web.World.{World, rpc}
use allgres.Web.Connection.{
  Server, Outcome, wrote, api_response, call_api, serve_api, authorize, check_lockout, check_origin,
  dispatch, read_and_dispatch, handle_web_connection,
}
use allgres.Web.Connection.Gates.{NotLocked, NotLimited, Passed}

-- Another path than one that does not start like the API's.
other_path :
    (r : HttpRequest) (path : Bytes)
    → starts_with (lit "/api/v1/") (route r) ≡ true
    → starts_with (lit "/api/v1/") path ≡ false
    → same (route r) path ≡ false
other_path r path h k = elim (Bool-cases (same (route r) path)) [
  | inr e ↦ e
  | inl e ↦ cc (h, k, (same_iff (route r) path).0 e)
]

-- Whatever has no route asks for nothing.
not_options :
    (parse : Bytes → Option Json) (r : HttpRequest) {req : Json}
    → api_route parse r ≡ ask req
    → same r.method (lit "OPTIONS") ≡ false
unfolding api_route same
not_options parse r h = elim (Bool-cases (same r.method (lit "OPTIONS"))) [
  | inr e ↦ e
  | inl e ↦ cc (rw ((same_iff r.method (lit "OPTIONS")).0 e, api_route) at h)
]

not_path :
    (parse : Bytes → Option Json) (r : HttpRequest) (path : Bytes) {req : Json}
    → ((r : HttpRequest) → route r ≡ path → api_route parse r ≡ no_route)
    → api_route parse r ≡ ask req
    → same (route r) path ≡ false
not_path parse r path unknown h = elim (Bool-cases (same (route r) path)) [
  | inr e ↦ e
  | inl e ↦ cc (h, unknown r ((same_iff (route r) path).0 e))
]

ticket_unknown :
    (parse : Bytes → Option Json) (r : HttpRequest)
    → route r ≡ lit "/api/v1/events/ticket"
    → api_route parse r ≡ no_route
unfolding api_route get_route post_route same starts_with
ticket_unknown parse r e = rw (e, api_route, get_route, post_route) (ground arith)

events_unknown :
    (parse : Bytes → Option Json) (r : HttpRequest)
    → route r ≡ events_path
    → api_route parse r ≡ no_route
unfolding api_route get_route post_route same starts_with
events_unknown parse r e = rw (e, api_route, get_route, post_route) (ground arith)

module _ {K : Type 0} ⦃e : Key K⦄ (w : World) (cfg : WebConfig) (r : HttpRequest) (req : Json)
    (asked : api_route w.parse_json r ≡ ask req) where
  -- The runtime worker is asked once, and its answer is written back.
  abbrev pub Served : Outcome K → Type 0
  Served o = (o.reply ≡ wrote (api_response w (rpc w req))) × (o.calls ≡ req ∷ [])

  serve_api-Served : (s : Server K) → Served (serve_api w cfg s r)
  unfolding serve_api call_api
  serve_api-Served s =
      rw
        (
          not_path w.parse_json r (lit "/api/v1/events/ticket") (ticket_unknown w.parse_json) asked,
          not_path w.parse_json r events_path (events_unknown w.parse_json) asked,
          asked,
        )
        (refl, refl)

  authorize-Served :
      (s : Server K) (ip : Option K)
      → (authorized r cfg w.at_ticket s.tickets).1 ≡ true
      → Served (authorize w cfg s ip r)
  unfolding authorize
  authorize-Served s ip h = rw h (serve_api-Served _)

  check_lockout-Served :
      (s : Server K) (ip : Option K)
      → NotLocked w cfg s.windows ip
      → (authorized r cfg w.at_ticket s.tickets).1 ≡ true
      → Served (check_lockout w cfg s ip r)
  unfolding check_lockout
  check_lockout-Served s none l h = authorize-Served s none h
  check_lockout-Served s (some ip) l h = rw l (authorize-Served _ (some ip) h)

  check_origin-Served :
      (s : Server K) (ip : Option K) → Passed w cfg s ip r → Served (check_origin w cfg s ip r)
  unfolding check_origin
  check_origin-Served s ip p = rw p.own_origin (check_lockout-Served s ip p.not_locked p.allowed)

  dispatch-Served :
      (s : Server K) (ip : Option K) → Passed w cfg s ip r → Served (dispatch w cfg s ip r)
  unfolding dispatch starts_with
  dispatch-Served s ip p =
      rw
        (
          not_options w.parse_json r asked,
          other_path r (lit "/healthz") p.in_api refl,
          other_path r (lit "/mock/chat/completions") p.in_api refl,
          other_path r (lit "/mock/slow/chat/completions") p.in_api refl,
          other_path r (lit "/mock/oauth/token") p.in_api refl,
          other_path r (lit "/mock/embeddings") p.in_api refl,
          other_path r (lit "/") p.in_api refl,
          p.in_api,
        )
        (check_origin-Served s ip p)

  read_and_dispatch-Served :
      (s : Server K) (ip : Option K)
      → read_http_request w.connection w.started ≡ some r
      → Passed w cfg s ip r
      → Served (read_and_dispatch w cfg s ip)
  unfolding read_and_dispatch
  read_and_dispatch-Served s ip f p = rw (f, read_and_dispatch) (dispatch-Served s ip p)

  -- The runtime worker is asked for a call of the API that has been read and passes every gate, and
  -- its answer is written back.
  pub handle_web_connection-Served :
      (s : Server K) (ip : Option K)
      → read_http_request w.connection w.started ≡ some r
      → NotLimited w cfg s.windows ip
      → Passed w cfg s ip r
      → Served (handle_web_connection w cfg s ip)
  unfolding handle_web_connection
  handle_web_connection-Served s none f l p = read_and_dispatch-Served s none f p
  handle_web_connection-Served s (some ip) f l p =
      rw (l, handle_web_connection)
        (read_and_dispatch-Served (record s { windows = (rate_limited s.windows ip w.at_rate).0 })
          (some ip) f
          (record {
            in_api = p.in_api;
            own_origin = p.own_origin;
            not_locked =
                auth_failures_exceeded-rate_limited s.windows ip w.at_rate w.at_lockout
                ∙ p.not_locked;
            allowed = p.allowed;
          }))
