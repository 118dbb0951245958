-- ===== src/Web/Tickets/Laws.antt =====
-- A ticket opens the event stream once, and only within its time.
use allgres.Base.{
  ℕ, ◌-◌, ◌≤◌, true, false, ◌≡◌, ◌≢◌, ◌⊎◌, ◌↔◌, arith, ltb, List, [], ◌∷◌, All, none, some, keep_if,
}
use allgres.Bytes.{Bytes}
use allgres.Bytes.Compare.{same_iff, same_refl}
use allgres.Web.Tickets.{
  Tickets, sse_ticket_ttl, is_live, mint_sse_ticket, consume_sse_ticket, TicketOp, mint, consume,
  step, run,
}

-- The operation does not issue `t`.
abbrev pub KeepsFrom : Bytes → TicketOp → Type 0
KeepsFrom t (mint now u) = u ≢ t
KeepsFrom t (consume now u) = Unit

-- The operation is about other tickets, and not later than `end`.
abbrev pub Elsewhere : Bytes → ℕ → TicketOp → Type 0
Elsewhere t end (mint now u) = (u ≢ t) × (now ≤ end)
Elsewhere t end (consume now u) = (u ≢ t) × (now ≤ end)

step-none :
    (t : Bytes) (tickets : Tickets) (op : TicketOp)
    → KeepsFrom t op
    → tickets t ≡ none
    → step tickets op t ≡ none
unfolding step mint_sse_ticket consume_sse_ticket
step-none t tickets (mint now u) h e = ground (arith, same_iff u t)
step-none t tickets (consume now u) h e = ground (arith, same_iff u t)

run-none :
    (t : Bytes) (tickets : Tickets) (ops : List TicketOp)
    → All (KeepsFrom t) ops
    → tickets t ≡ none
    → run tickets ops t ≡ none
unfolding run
run-none t tickets [] h e = e
run-none t tickets (op ∷ ops) h e =
    run-none t (step tickets op) ops h.1 (step-none t tickets op h.0 e)

consume-none :
    (now : ℕ) (t : Bytes) (tickets : Tickets)
    → tickets t ≡ none
    → (consume_sse_ticket now t tickets).1 ≡ false
unfolding consume_sse_ticket
consume-none now t tickets e = rw e

consume_gone :
    (now : ℕ) (t : Bytes) (tickets : Tickets) → (consume_sse_ticket now t tickets).0 t ≡ none
unfolding consume_sse_ticket
consume_gone now t tickets = ground (arith, same_refl t)

-- A ticket is good for one use: after it has been presented, accepted or not, it is refused,
-- whatever happens in between, unless the same ticket is issued anew.
pub consume_once :
    (t : Bytes) (tickets : Tickets) (now later : ℕ) (ops : List TicketOp)
    → All (KeepsFrom t) ops
    → (consume_sse_ticket later t (run (consume_sse_ticket now t tickets).0 ops)).1 ≡ false
consume_once t tickets now later ops h =
    consume-none later t _ (run-none t _ ops h (consume_gone now t tickets))

-- The ticket is there as issued, or its time is over.
step-issued :
    (t : Bytes) (issued end : ℕ) (tickets : Tickets) (op : TicketOp)
    → Elsewhere t end op
    → keep_if (is_live end) (tickets t) ≡ keep_if (is_live end) (some issued)
    → keep_if (is_live end) (step tickets op t) ≡ keep_if (is_live end) (some issued)
unfolding step mint_sse_ticket consume_sse_ticket
step-issued t issued end tickets (mint now u) h e = ground (arith, same_iff u t)
step-issued t issued end tickets (consume now u) h e = ground (arith, same_iff u t)

run-issued :
    (t : Bytes) (issued end : ℕ) (tickets : Tickets) (ops : List TicketOp)
    → All (Elsewhere t end) ops
    → keep_if (is_live end) (tickets t) ≡ keep_if (is_live end) (some issued)
    → keep_if (is_live end) (run tickets ops t) ≡ keep_if (is_live end) (some issued)
unfolding run
run-issued t issued end tickets [] h e = e
run-issued t issued end tickets (op ∷ ops) h e =
    run-issued t issued end (step tickets op) ops h.1 (step-issued t issued end tickets op h.0 e)

mint-issued :
    (t : Bytes) (issued end : ℕ) (tickets : Tickets)
    → keep_if (is_live end) (mint_sse_ticket issued t tickets t)
      ≡ keep_if (is_live end) (some issued)
unfolding mint_sse_ticket
mint-issued t issued end tickets = ground (arith, same_refl t)

consume-issued :
    (t : Bytes) (issued now : ℕ) (tickets : Tickets)
    → keep_if (is_live now) (tickets t) ≡ keep_if (is_live now) (some issued)
    → (consume_sse_ticket now t tickets).1 ≡ ltb (now - issued) sse_ticket_ttl
unfolding consume_sse_ticket
consume-issued t issued now tickets e = ground arith

-- A ticket is accepted, when it is first presented, exactly within 30 seconds of its issue,
-- whatever other tickets are issued and presented in between.
pub consume-mint :
    (t : Bytes) (tickets : Tickets) (issued now : ℕ) (ops : List TicketOp)
    → All (Elsewhere t now) ops
    → (consume_sse_ticket now t (run (mint_sse_ticket issued t tickets) ops)).1
      ≡ ltb (now - issued) sse_ticket_ttl
consume-mint t tickets issued now ops h =
    consume-issued t issued now _
      (run-issued t issued now _ ops h (mint-issued t issued now tickets))

-- What the next use of a ticket is told.
pub consume_iff :
    (now : ℕ) (t : Bytes) (tickets : Tickets)
    → ((consume_sse_ticket now t tickets).1 ≡ true)
      ↔ ((issued : ℕ) × (tickets t ≡ some issued) × (ltb (now - issued) sse_ticket_ttl ≡ true))
unfolding consume_sse_ticket
consume_iff now t tickets = ground arith

-- What is in the map behind an issue was there before, or is the ticket issued.
pub mint_sse_ticket-some :
    (now : ℕ) (nonce : Bytes) (tickets : Tickets) (t : Bytes) (issued : ℕ)
    → mint_sse_ticket now nonce tickets t ≡ some issued
    → (tickets t ≡ some issued) ⊎ ((t ≡ nonce) × (issued ≡ now))
unfolding mint_sse_ticket
mint_sse_ticket-some now nonce tickets t issued h = ground (arith, same_iff nonce t)

-- A use adds no ticket.
pub consume_sse_ticket-some :
    (now : ℕ) (u : Bytes) (tickets : Tickets) (t : Bytes) (issued : ℕ)
    → (consume_sse_ticket now u tickets).0 t ≡ some issued
    → tickets t ≡ some issued
unfolding consume_sse_ticket
consume_sse_ticket-some now u tickets t issued h = ground arith
