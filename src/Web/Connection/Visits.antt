-- ===== src/Web/Connection/Visits.antt =====
-- Any sequence of connections: who has not shown the token does not reach the runtime worker.
use mathlib.Core.List.{Memᴰ}
use allgres.Base.{
  ℕ, ◌-◌, true, Option, none, some, List, [], ◌∷◌, ◌≡◌, ◌≢◌, ◌⊎◌, inl, inr, refl, arith, ltb, Key,
}
use allgres.Bytes.{Bytes, lit}
use allgres.Http.{HttpRequest, route, query, read_http_request}
use allgres.Http.Form.{query_param}
use allgres.Web.Tickets.{sse_ticket_ttl}
use allgres.Web.Auth.{WebConfig, events_path}
use allgres.Web.Auth.Laws.{Bears, authorized_iff}
use allgres.Web.World.{World}
use allgres.Web.Connection.{Server, handle_web_connection}
use allgres.Web.Connection.Provenance.{IssuedTo, handle_web_connection-some}
use allgres.Web.Connection.Gates.{handle_web_connection-calls}

-- A connection: the address that it comes from, if that is known, and what is outside the worker
-- meanwhile.
pub record Visit (K : Type 0) : Type 0 where
  pub world : World
  pub ip : Option K

module _ {K : Type 0} ⦃e : Key K⦄ (cfg : WebConfig) (start : Server K) where
  -- The server behind the connections so far, the last first.
  unfoldable pub server_behind : List (Visit K) → Server K
  server_behind [] = start
  server_behind (v ∷ earlier) =
      (handle_web_connection v.world cfg (server_behind earlier) v.ip).server

  -- One of the connections showed the token, and was given the ticket then.
  abbrev pub Stems : List (Visit K) → Bytes → ℕ → Type 0
  Stems visits t issued = (v : Visit K) × Memᴰ v visits × IssuedTo v.world cfg t issued

  Stems-cons :
      (v : Visit K) (visits : List (Visit K)) (t : Bytes) (issued : ℕ)
      → Stems visits t issued
      → Stems (v ∷ visits) t issued
  Stems-cons v visits t issued (u, among, to) = (u, Memᴰ.tail among, to)

  module _ (under_token : cfg.token ≢ []) (no_tickets : (t : Bytes) → start.tickets t ≡ none) where
    server_behind-Stems :
        (visits : List (Visit K)) (t : Bytes) (issued : ℕ)
        → (server_behind visits).tickets t ≡ some issued
        → Stems visits t issued
    unfolding server_behind
    server_behind-Stems [] t issued h = ground (arith, no_tickets t)
    server_behind-Stems (v ∷ earlier) t issued h =
        let before = server_behind-Stems earlier t issued in
        elim (handle_web_connection-some v.world cfg under_token (server_behind earlier) v.ip t
          issued h) [
            | inl old ↦ Stems-cons v earlier t issued (before old)
            | inr to ↦ (v, Memᴰ.head refl, to)
          ]

    -- Under a token, and from a start without tickets, nobody reaches the runtime worker who has not
    -- shown the token: in any sequence of connections, one that reaches it carries the token as a
    -- bearer, or opens the event stream with a ticket that was given, less than 30 s before, to a
    -- connection that carried it.
    pub reaches-Bears :
        (visits : List (Visit K)) (v : Visit K)
        → (handle_web_connection v.world cfg (server_behind visits) v.ip).calls ≢ []
        → (r : HttpRequest) × (read_http_request v.world.connection v.world.started ≡ some r)
          × (Bears r cfg.token
              ⊎ ((route r ≡ events_path)
                  × ((t : Bytes) × (issued : ℕ) × (query_param (query r) (lit "ticket") ≡ some t)
                      × (ltb (v.world.at_ticket - issued) sse_ticket_ttl ≡ true)
                      × Stems visits t issued)))
    reaches-Bears visits v h =
        let (r, found, limited, passed) =
          handle_web_connection-calls v.world cfg (server_behind visits) v.ip h in
        (
          r,
          found,
          elim ((authorized_iff r cfg v.world.at_ticket (server_behind visits).tickets
                under_token).0
              passed.allowed) [
                | inl shown ↦ inl shown
                | inr (events, (t, issued, asked, live, fresh)) ↦
                    inr
                      (events, (t, issued, asked, fresh, server_behind-Stems visits t issued live))
              ],
        )
