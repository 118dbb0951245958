-- ===== src/Web/Auth.antt =====
-- src/web.rs: who may call the API. The bearer token, the tickets of the event stream, and the
-- rules against requests from other sites.
pub mod Laws
use Prim.Native.Nat.{bit_or, bit_xor}
use allgres.Base.{
  ℕ, Bool, true, false, not, [], ◌∷◌, Option, none, some, ◌==◌, if◌then◌else◌, length, is_some,
  value_or, is_empty,
}
use allgres.Bytes.{Bytes, lit}
use allgres.Bytes.Compare.{same, same_ignoring_case, strip_prefix}
use allgres.Bytes.Search.{after, before}
use allgres.Http.{HttpRequest, route, query, header}
use allgres.Http.Form.{query_param}
use allgres.Web.Tickets.{Tickets, consume_sse_ticket}

-- `socket` is where the runtime worker listens: part of the environment here.
pub record WebConfig : Type 0 where
  pub token : Bytes
  pub mock_enabled : Bool

unfoldable pub diff_from : ℕ → Bytes → Bytes → ℕ
diff_from diff (x ∷ a) (y ∷ b) = diff_from (bit_or diff (bit_xor x y)) a b
diff_from diff _ _ = diff

unfoldable pub constant_time_eq : Bytes → Bytes → Bool
constant_time_eq a b = if length a == length b then diff_from 0 a b == 0 else false

abbrev pub events_path : Bytes
events_path = lit "/api/v1/events"

abbrev pub bearer : Bytes
bearer = lit "Bearer "

-- The header carries the token.
unfoldable pub bears : Bytes → Option Bytes → Bool
bears token none = false
bears token (some v) = elim (strip_prefix bearer v) [
  | none ↦ false
  | some t ↦ constant_time_eq t token
]

pub ticket_authorized : HttpRequest → ℕ → Tickets → Tickets × Bool
ticket_authorized r now tickets = elim (query_param (query r) (lit "ticket")) [
  | none ↦ (tickets, false)
  | some t ↦ consume_sse_ticket now t tickets
]

-- The clock is read where a ticket is consumed.
unfoldable pub authorized : HttpRequest → WebConfig → ℕ → Tickets → Tickets × Bool
authorized r cfg now tickets =
    if is_empty cfg.token
    then (tickets, true)
    else if bears cfg.token (header r (lit "authorization"))
    then (tickets, true)
    else if same (route r) events_path
    then ticket_authorized r now tickets
    else (tickets, false)

-- `origin.split("://").nth(1).unwrap_or("")`
pub origin_host : Bytes → Bytes
origin_host origin = elim (after (lit "://") origin) [
  | none ↦ []
  | some rest ↦ before (lit "://") rest
]

unfoldable pub origin_ok : Option Bytes → Bytes → Bool
origin_ok none host = true
origin_ok (some origin) host =
    if is_empty (origin_host origin) then false else same_ignoring_case (origin_host origin) host

unfoldable pub csrf_ok : HttpRequest → Bool
csrf_ok r =
    if not (origin_ok (header r (lit "origin")) (value_or [] (header r (lit "host"))))
    then false
    else if same (route r) events_path
    then true
    else is_some (header r (lit "x-allgres-client"))
