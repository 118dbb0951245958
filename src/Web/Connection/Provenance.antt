-- ===== src/Web/Connection/Provenance.antt =====
-- Where a ticket comes from: some earlier connection has shown the token.
use mathlib.Core.Bool.{true≢false}
use allgres.Web.RateLimit.{auth_failures_exceeded, rate_limited}
use allgres.Base.{
  ℕ, true, Option, none, some, [], ◌≡◌, ◌≢◌, ◌⊎◌, inl, inr, refl, sym, ap, ◌∙◌, arith, Key,
  Bool-cases, Option-cases,
}
use allgres.Bytes.{Bytes, lit}
use allgres.Bytes.Compare.{same, same_iff}
use allgres.Http.{HttpRequest, route, read_http_request}
use allgres.Web.Tickets.{Tickets}
use allgres.Web.Auth.{WebConfig, authorized, events_path}
use allgres.Web.Tickets.Laws.{mint_sse_ticket-some}
use allgres.Web.Auth.Laws.{Bears, authorized_iff, authorized-some}
use allgres.Web.Api.{ApiCall, ask, answer, no_route, panics, api_route}
use allgres.Web.World.{World}
use allgres.Web.Connection.{
  Server, issue_ticket, send_events, call_api, serve_api, record_failure, authorize, unauthorized,
  check_lockout, check_origin, mock, dispatch, read_and_dispatch, handle_web_connection,
}

abbrev ticket_path : Bytes
ticket_path = lit "/api/v1/events/ticket"

-- The ticket is issued now.
abbrev IssuedNow : World → Bytes → ℕ → Type 0
IssuedNow w t issued = (t ≡ w.nonce) × (issued ≡ w.at_ticket)

-- The ticket was there before, or the request shows the token and is given the ticket.
abbrev Kept : World → WebConfig → Tickets → HttpRequest → Bytes → ℕ → Type 0
Kept w cfg before r t issued = (before t ≡ some issued) ⊎ (Bears r cfg.token × IssuedNow w t issued)

-- The connection showed the token, and was given the ticket.
abbrev pub IssuedTo : World → WebConfig → Bytes → ℕ → Type 0
IssuedTo w cfg t issued =
    (r : HttpRequest) × (read_http_request w.connection w.started ≡ some r)
    × Bears r cfg.token
    × IssuedNow w t issued

paths_apart : ticket_path ≢ events_path
unfolding same
paths_apart e = true≢false (sym ((same_iff ticket_path events_path).1 e))

module _ {K : Type 0} ⦃e : Key K⦄ (w : World) (cfg : WebConfig) where
  call_api-server : (s : Server K) (c : ApiCall) → (call_api w cfg s c).server ≡ s
  unfolding call_api
  call_api-server s (ask req) = refl
  call_api-server s (answer v) = refl
  call_api-server s no_route = refl
  call_api-server s panics = refl

  record_failure-tickets :
      (s : Server K) (ip : Option K) → (record_failure w cfg s ip).tickets ≡ s.tickets
  unfolding record_failure
  record_failure-tickets s none = refl
  record_failure-tickets s (some ip) = refl

  issue_ticket-some :
      (s : Server K) (r : HttpRequest) (t : Bytes) (issued : ℕ)
      → (issue_ticket w cfg s r).server.tickets t ≡ some issued
      → (s.tickets t ≡ some issued) ⊎ IssuedNow w t issued
  unfolding issue_ticket
  issue_ticket-some s r t issued h =
      ground (arith, mint_sse_ticket-some w.at_ticket w.nonce s.tickets t issued)

  serve_api-some :
      (s : Server K) (r : HttpRequest) (t : Bytes) (issued : ℕ)
      → (serve_api w cfg s r).server.tickets t ≡ some issued
      → (s.tickets t ≡ some issued) ⊎ ((route r ≡ ticket_path) × IssuedNow w t issued)
  unfolding serve_api send_events
  serve_api-some s r t issued h = ground (
    arith,
    same_iff (route r) ticket_path,
    issue_ticket-some s r t issued,
    call_api-server s (api_route w.parse_json r),
  )

  module _ (under_token : cfg.token ≢ []) where
    allowed-Kept :
        (s : Server K) (r : HttpRequest) (t : Bytes) (issued : ℕ)
        → (authorized r cfg w.at_ticket s.tickets).1 ≡ true
        → ((authorized r cfg w.at_ticket s.tickets).0 t ≡ some issued)
          ⊎ ((route r ≡ ticket_path) × IssuedNow w t issued)
        → Kept w cfg s.tickets r t issued
    allowed-Kept s r t issued allowed (inl old) =
        inl (authorized-some r cfg w.at_ticket s.tickets t issued old)
    allowed-Kept s r t issued allowed (inr (path, now)) =
        elim ((authorized_iff r cfg w.at_ticket s.tickets under_token).0 allowed) [
          | inl shown ↦ inr (shown, now)
          | inr (events, ticket) ↦ absurd (paths_apart (sym path ∙ events))
        ]

    authorize-some :
        (s : Server K) (ip : Option K) (r : HttpRequest) (t : Bytes) (issued : ℕ)
        → (authorize w cfg s ip r).server.tickets t ≡ some issued
        → Kept w cfg s.tickets r t issued
    unfolding authorize unauthorized
    authorize-some s ip r t issued h =
        let s' = record s { tickets = (authorized r cfg w.at_ticket s.tickets).0 } in
        elim (Bool-cases (authorized r cfg w.at_ticket s.tickets).1) [
          | inl allowed ↦
              allowed-Kept s r t issued allowed
                (serve_api-some s' r t issued (rw (allowed, authorize) at h))
          | inr refused ↦ inl (
              authorized-some r cfg w.at_ticket s.tickets t issued (
                ap (λ tickets. tickets t) (sym (record_failure-tickets s' ip))
                ∙ rw (refused, authorize) at h))
        ]

    check_lockout-some :
        (s : Server K) (ip : Option K) (r : HttpRequest) (t : Bytes) (issued : ℕ)
        → (check_lockout w cfg s ip r).server.tickets t ≡ some issued
        → Kept w cfg s.tickets r t issued
    unfolding check_lockout
    check_lockout-some s none r t issued h = authorize-some s none r t issued h
    check_lockout-some s (some ip) r t issued h =
        let s' = record s { windows = (auth_failures_exceeded s.windows ip w.at_lockout).0 } in
        ground (arith, authorize-some s' (some ip) r t issued)

    check_origin-some :
        (s : Server K) (ip : Option K) (r : HttpRequest) (t : Bytes) (issued : ℕ)
        → (check_origin w cfg s ip r).server.tickets t ≡ some issued
        → Kept w cfg s.tickets r t issued
    unfolding check_origin
    check_origin-some s ip r t issued h = ground (arith, check_lockout-some s ip r t issued)

    dispatch-some :
        (s : Server K) (ip : Option K) (r : HttpRequest) (t : Bytes) (issued : ℕ)
        → (dispatch w cfg s ip r).server.tickets t ≡ some issued
        → Kept w cfg s.tickets r t issued
    unfolding dispatch mock
    dispatch-some s ip r t issued h = ground (arith, check_origin-some s ip r t issued)

    read_and_dispatch-some :
        (s : Server K) (ip : Option K) (t : Bytes) (issued : ℕ)
        → (read_and_dispatch w cfg s ip).server.tickets t ≡ some issued
        → (s.tickets t ≡ some issued) ⊎ IssuedTo w cfg t issued
    unfolding read_and_dispatch
    read_and_dispatch-some s ip t issued h =
        elim (Option-cases (read_http_request w.connection w.started)) [
          | inl missing ↦ inl (rw (missing, read_and_dispatch) at h)
          | inr (r, found) ↦
              elim (dispatch-some s ip r t issued (rw (found, read_and_dispatch) at h)) [
                | inl old ↦ inl old
                | inr (shown, now) ↦ inr (r, found, shown, now)
              ]
        ]

    -- A ticket that is live behind a connection was so before, or the connection showed the token.
    pub handle_web_connection-some :
        (s : Server K) (ip : Option K) (t : Bytes) (issued : ℕ)
        → (handle_web_connection w cfg s ip).server.tickets t ≡ some issued
        → (s.tickets t ≡ some issued) ⊎ IssuedTo w cfg t issued
    unfolding handle_web_connection
    handle_web_connection-some s none t issued h = read_and_dispatch-some s none t issued h
    handle_web_connection-some s (some ip) t issued h =
        let s' = record s { windows = (rate_limited s.windows ip w.at_rate).0 } in
        ground (arith, read_and_dispatch-some s' (some ip) t issued)
