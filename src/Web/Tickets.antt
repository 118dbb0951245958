-- ===== src/Web/Tickets.antt =====
-- src/web.rs: the single-use tickets of the event stream.
pub mod Laws
use allgres.Base.{
  ℕ, ◌-◌, ◌*◌, ◌^◌, Bool, ltb, Map, empty_map, insert, remove, retain, is_some, List, [], ◌∷◌,
}
use allgres.Bytes.{Bytes}
use allgres.Bytes.Compare.{bytes_key}

-- 30 s, in nanoseconds.
abbrev pub sse_ticket_ttl : ℕ
sse_ticket_ttl = 30 * 10 ^ 9

-- When each live ticket was issued.
abbrev pub Tickets : Type 0
Tickets = Map Bytes ℕ

-- `now.duration_since(*issued) < SSE_TICKET_TTL`, where the difference stops at 0.
abbrev pub is_live : ℕ → ℕ → Bool
is_live now issued = ltb (now - issued) sse_ticket_ttl

-- The nonce that becomes the ticket is drawn by the caller's environment.
pub mint_sse_ticket : ℕ → Bytes → Tickets → Tickets
mint_sse_ticket now nonce tickets = insert nonce now (retain (is_live now) tickets)

pub consume_sse_ticket : ℕ → Bytes → Tickets → Tickets × Bool
consume_sse_ticket now t tickets =
    let live = retain (is_live now) tickets in (remove t live, is_some (live t))

-- What the server does with tickets, at the time of each call.
pub data TicketOp : Type 0 where
  mint : ℕ → Bytes → TicketOp
  consume : ℕ → Bytes → TicketOp

pub step : Tickets → TicketOp → Tickets
step tickets (mint now t) = mint_sse_ticket now t tickets
step tickets (consume now t) = (consume_sse_ticket now t tickets).0

pub run : Tickets → List TicketOp → Tickets
run tickets [] = tickets
run tickets (op ∷ ops) = run (step tickets op) ops
