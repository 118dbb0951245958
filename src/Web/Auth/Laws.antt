-- ===== src/Web/Auth/Laws.antt =====
-- Who is authorized, and which requests count as the dashboard's own.
use Prim.Native.Nat.{bit_or, bit_xor}
use allgres.Base.{
  ℕ, true, false, [], ◌∷◌, ◌++◌, Option, none, some, ◌≡◌, ◌≢◌, ◌↔◌, ◌⊎◌, inl, inr, refl, ap, ◌∙◌,
  arith, ltb, ◌==◌, if◌then◌else◌, length, value_or, is_empty, ◌-◌, Option-cases,
}
use allgres.Base.Bits.{bit_or-eq-zero, bit_xor-eq-zero, zero-bit_or, bit_xor_self}
use allgres.Bytes.{Bytes, lit}
use allgres.Bytes.Compare.{
  same_iff, same_ignoring_case_iff, to_lower, strip_prefix, strip_prefix-append,
  strip_prefix-eq-some,
}
use mathlib.Core.Option.{some_inj}
use allgres.Http.{HttpRequest, route, query, header}
use allgres.Http.Form.{query_param}
use allgres.Web.Tickets.{Tickets, sse_ticket_ttl}
use allgres.Web.Tickets.Laws.{consume_iff, consume_sse_ticket-some}
use allgres.Web.Auth.{
  WebConfig, diff_from, constant_time_eq, events_path, bearer, bears, ticket_authorized, authorized,
  origin_host, origin_ok, csrf_ok,
}

diff_from-eq-zero :
    (d : ℕ) (a b : Bytes) → length a ≡ length b → diff_from d a b ≡ 0 → (d ≡ 0) × (a ≡ b)
unfolding diff_from
diff_from-eq-zero d [] [] l e = (e, refl)
diff_from-eq-zero d [] (y ∷ b) l e = absurd (omega arith)
diff_from-eq-zero d (x ∷ a) [] l e = absurd (omega arith)
diff_from-eq-zero d (x ∷ a) (y ∷ b) l e = ground (
  arith,
  diff_from-eq-zero (bit_or d (bit_xor x y)) a b (omega arith) e,
  bit_or-eq-zero d (bit_xor x y),
  bit_xor-eq-zero x y,
)

diff_from_self : (a : Bytes) → diff_from 0 a a ≡ 0
unfolding diff_from
diff_from_self [] = refl
diff_from_self (x ∷ a) = rw (bit_xor_self x, zero-bit_or 0) (diff_from_self a)

-- Comparing in constant time is comparing: the accumulated difference is zero exactly for equal
-- texts.
pub constant_time_eq_iff : (a b : Bytes) → (constant_time_eq a b ≡ true) ↔ (a ≡ b)
unfolding constant_time_eq
constant_time_eq_iff a b = (there, back)
  where
    there : (if length a == length b then diff_from 0 a b == 0 else false) ≡ true → a ≡ b
    there h = ground (arith, diff_from-eq-zero 0 a b)

    back : a ≡ b → (if length a == length b then diff_from 0 a b == 0 else false) ≡ true
    back e = ground (arith, diff_from_self a)

-- The authorization header is "Bearer " and the token.
abbrev pub Bears : HttpRequest → Bytes → Type 0
Bears r token = header r (lit "authorization") ≡ some (bearer ++ token)

-- The request opens the event stream with a ticket that was issued and is not consumed, and less
-- than 30 s old.
abbrev pub HasTicket : HttpRequest → ℕ → Tickets → Type 0
HasTicket r now tickets =
    (t : Bytes) × (issued : ℕ) × (query_param (query r) (lit "ticket") ≡ some t)
    × (tickets t ≡ some issued)
    × (ltb (now - issued) sse_ticket_ttl ≡ true)

bears-some : (token v : Bytes) → (bears token (some v) ≡ true) ↔ (v ≡ bearer ++ token)
unfolding bears
bears-some token v = (there, back)
  where
    there : bears token (some v) ≡ true → v ≡ bearer ++ token
    there h = elim (Option-cases (strip_prefix bearer v)) [
      | inl e ↦ cc (rw (e, bears) at h)
      | inr (t, e) ↦
          strip_prefix-eq-some bearer v t e
          ∙ ap (◌++◌ bearer) ((constant_time_eq_iff t token).0 (rw (e, bears) at h))
    ]

    back : v ≡ bearer ++ token → bears token (some v) ≡ true
    back e =
        rw e
          (rw (strip_prefix-append bearer token, bears) ((constant_time_eq_iff token token).1 refl))

bears_iff :
    (token : Bytes) (v : Option Bytes) → (bears token v ≡ true) ↔ (v ≡ some (bearer ++ token))
unfolding bears
bears_iff token none = (λ h. cc, λ h. cc)
bears_iff token (some v) =
    (λ h. ap some ((bears-some token v).0 h), λ h. (bears-some token v).1 (some_inj.0 h))

ticket_authorized_iff :
    (r : HttpRequest) (now : ℕ) (tickets : Tickets)
    → ((ticket_authorized r now tickets).1 ≡ true) ↔ HasTicket r now tickets
unfolding ticket_authorized
ticket_authorized_iff r now tickets = elim (Option-cases (query_param (query r) (lit "ticket"))) [
  | inl e ↦ rw (e, ticket_authorized) (ground arith)
  | inr (t, e) ↦ rw (e, ticket_authorized) (ground (arith, consume_iff now t tickets))
]

is_empty-nil : (s : Bytes) → (is_empty s ≡ true) ↔ (s ≡ [])
is_empty-nil [] = ground arith
is_empty-nil (c ∷ s) = ground arith

-- Under a token, a request is authorized exactly if it carries the token as a bearer, or opens the
-- event stream with a live ticket.
pub authorized_iff :
    (r : HttpRequest) (cfg : WebConfig) (now : ℕ) (tickets : Tickets)
    → cfg.token ≢ []
    → ((authorized r cfg now tickets).1 ≡ true)
      ↔ (Bears r cfg.token ⊎ ((route r ≡ events_path) × HasTicket r now tickets))
unfolding authorized
authorized_iff r cfg now tickets h = ground (
  arith,
  is_empty-nil cfg.token,
  bears_iff cfg.token (header r (lit "authorization")),
  same_iff (route r) events_path,
  ticket_authorized_iff r now tickets,
)

-- A request that names no origin, or the host that it asks, in any case of letters.
abbrev pub SameOrigin : Option Bytes → Bytes → Type 0
SameOrigin none host = Unit
SameOrigin (some o) host = (origin_host o ≢ []) × (to_lower (origin_host o) ≡ to_lower host)

origin_ok_iff : (o : Option Bytes) (host : Bytes) → (origin_ok o host ≡ true) ↔ SameOrigin o host
unfolding origin_ok
origin_ok_iff none host = ground arith
origin_ok_iff (some o) host =
    ground (arith, is_empty-nil (origin_host o), same_ignoring_case_iff (origin_host o) host)

-- A request passes as the dashboard's own exactly if its origin, where it names one, is the host
-- that it asks, and it opens the event stream or has the dashboard's own header.
pub csrf_ok_iff :
    (r : HttpRequest)
    → (csrf_ok r ≡ true) ↔ (
        SameOrigin (header r (lit "origin")) (value_or [] (header r (lit "host")))
        × ((route r ≡ events_path) ⊎ ((v : Bytes) × (header r (lit "x-allgres-client") ≡ some v))))
unfolding csrf_ok
csrf_ok_iff r = ground (
  arith,
  origin_ok_iff (header r (lit "origin")) (value_or [] (header r (lit "host"))),
  same_iff (route r) events_path,
)

ticket_authorized-some :
    (r : HttpRequest) (now : ℕ) (tickets : Tickets) (t : Bytes) (issued : ℕ)
    → (ticket_authorized r now tickets).0 t ≡ some issued
    → tickets t ≡ some issued
unfolding ticket_authorized
ticket_authorized-some r now tickets t issued h =
    elim (Option-cases (query_param (query r) (lit "ticket"))) [
      | inl e ↦ rw (e, ticket_authorized) at h
      | inr (u, e) ↦ consume_sse_ticket-some now u tickets t issued (rw (e, ticket_authorized) at h)
    ]

-- A test for the token adds no ticket.
pub authorized-some :
    (r : HttpRequest) (cfg : WebConfig) (now : ℕ) (tickets : Tickets) (t : Bytes) (issued : ℕ)
    → (authorized r cfg now tickets).0 t ≡ some issued
    → tickets t ≡ some issued
unfolding authorized
authorized-some r cfg now tickets t issued h =
    ground (arith, ticket_authorized-some r now tickets t issued)
