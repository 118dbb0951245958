-- ===== src/Web/Connection/Gates.antt =====
-- Nothing reaches the runtime worker but through every gate.
use allgres.Base.{
  true, false, Option, none, some, [], ◌≡◌, ◌≢◌, inl, inr, refl, sym, ◌∙◌, arith, Key, Bool-cases,
  Option-cases,
}
use allgres.Bytes.{lit}
use allgres.Bytes.Compare.{starts_with}
use allgres.Http.{HttpRequest, route, read_http_request}
use allgres.Web.RateLimit.{rate_limited, auth_failures_exceeded, RateWindows}
use allgres.Web.RateLimit.Lockout.{auth_failures_exceeded-rate_limited}
use allgres.Web.Auth.{WebConfig, authorized, csrf_ok}
use allgres.Web.World.{World}
use allgres.Web.Connection.{
  Server, authorize, unauthorized, check_lockout, check_origin, mock, dispatch, read_and_dispatch,
  handle_web_connection,
}

module _ {K : Type 0} ⦃e : Key K⦄ (w : World) (cfg : WebConfig) where
  authorize-calls :
      (s : Server K) (ip : Option K) (r : HttpRequest)
      → (authorize w cfg s ip r).calls ≢ []
      → (authorized r cfg w.at_ticket s.tickets).1 ≡ true
  unfolding authorize unauthorized
  authorize-calls s ip r h = ground arith

  -- The address is not over its failures.
  abbrev pub NotLocked : RateWindows K → Option K → Type 0
  NotLocked windows none = Unit
  NotLocked windows (some ip) = (auth_failures_exceeded windows ip w.at_lockout).1 ≡ false

  abbrev pub NotLimited : RateWindows K → Option K → Type 0
  NotLimited windows none = Unit
  NotLimited windows (some ip) = (rate_limited windows ip w.at_rate).1 ≡ false

  check_lockout-calls :
      (s : Server K) (ip : Option K) (r : HttpRequest)
      → (check_lockout w cfg s ip r).calls ≢ []
      → NotLocked s.windows ip × ((authorized r cfg w.at_ticket s.tickets).1 ≡ true)
  unfolding check_lockout
  check_lockout-calls s none r h = (tt, authorize-calls s none r h)
  check_lockout-calls s (some ip) r h =
      let s' = record s { windows = (auth_failures_exceeded s.windows ip w.at_lockout).0 } in
      ground (arith, authorize-calls s' (some ip) r)

  -- What a request that reaches the runtime worker has passed.
  pub record Passed (s : Server K) (ip : Option K) (r : HttpRequest) : Type 0 where
    pub in_api : starts_with (lit "/api/v1/") (route r) ≡ true
    pub own_origin : csrf_ok r ≡ true
    pub not_locked : NotLocked s.windows ip
    pub allowed : (authorized r cfg w.at_ticket s.tickets).1 ≡ true

  check_origin-calls :
      (s : Server K) (ip : Option K) (r : HttpRequest)
      → starts_with (lit "/api/v1/") (route r) ≡ true
      → (check_origin w cfg s ip r).calls ≢ []
      → Passed s ip r
  unfolding check_origin
  check_origin-calls s ip r p h = ground (arith, check_lockout-calls s ip r)

  dispatch-calls :
      (s : Server K) (ip : Option K) (r : HttpRequest)
      → (dispatch w cfg s ip r).calls ≢ []
      → Passed s ip r
  unfolding dispatch mock
  dispatch-calls s ip r h = ground (arith, check_origin-calls s ip r)

  read_and_dispatch-calls :
      (s : Server K) (ip : Option K)
      → (read_and_dispatch w cfg s ip).calls ≢ []
      → (r : HttpRequest) × (read_http_request w.connection w.started ≡ some r) × Passed s ip r
  unfolding read_and_dispatch
  read_and_dispatch-calls s ip h = elim (Option-cases (read_http_request w.connection w.started)) [
    | inl missing ↦ absurd (rw (missing, read_and_dispatch) at h refl)
    | inr (r, found) ↦ (r, found, dispatch-calls s ip r (rw (found, read_and_dispatch) at h))
  ]

  -- A request reaches the runtime worker only if it was read off the connection, is for the API,
  -- comes from the dashboard's own origin and is authorized, and its address, where it is known,
  -- is within the rate limit and not locked out; all by the state before the connection.
  pub handle_web_connection-calls :
      (s : Server K) (ip : Option K)
      → (handle_web_connection w cfg s ip).calls ≢ []
      → (r : HttpRequest) × (read_http_request w.connection w.started ≡ some r)
        × NotLimited s.windows ip
        × Passed s ip r
  unfolding handle_web_connection
  handle_web_connection-calls s none h =
      let (r, found, passed) = read_and_dispatch-calls s none h in (r, found, tt, passed)
  handle_web_connection-calls s (some ip) h =
      elim (Bool-cases (rate_limited s.windows ip w.at_rate).1) [
        | inl limited ↦ absurd (rw (limited, handle_web_connection) at h refl)
        | inr fine ↦
            let s' = record s { windows = (rate_limited s.windows ip w.at_rate).0 } in
            let (r, found, passed) =
              read_and_dispatch-calls s' (some ip) (rw (fine, handle_web_connection) at h) in
            (
              r,
              found,
              fine,
              record {
                in_api = passed.in_api;
                own_origin = passed.own_origin;
                not_locked =
                    sym (auth_failures_exceeded-rate_limited s.windows ip w.at_rate w.at_lockout)
                    ∙ passed.not_locked;
                allowed = passed.allowed;
              },
            )
      ]
