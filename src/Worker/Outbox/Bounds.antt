-- ===== src/Worker/Outbox/Bounds.antt =====
-- How many calls are in flight.
use allgres.Base.{
  ℕ, ◌+◌, ◌-◌, ◌≤◌, Bool, true, false, ◌&&◌, Option, none, some, List, [], ◌∷◌, ◌≡◌, subst, arith,
  ltb, if◌then◌else◌, length, length-append, Option-cases, inl, inr,
}
use allgres.Bytes.{Bytes, lit}
use allgres.Json.{Json, Items, nil, cons, get_str}
use allgres.Worker.Ident.{valid_uuid}
use allgres.Worker.Session.{Database}
use allgres.Worker.Yields.{Yields, bind_Yields, pure_Yields, anything, if_Yields, weaken_Yields}
use allgres.Worker.Pumps.{jobs_in}
use allgres.Worker.Outbox.{
  OutboundQueue, outbound, oauth, agent_embedding, provider_probe, OutboundJob, OutboundResult,
  capacity, Outbox, push, marked, submit_for, send_job, send_call, send_calls, fill_from, fill,
  harvest,
}
use allgres.Worker.Outbox.Limits.{count, RespectsLimits, claim_for_Yields}

-- From `base` calls in flight on, each job sent is one more.
pub record IsWithin (base : ℕ) (o : Outbox) : Type 0 where
  pub balanced : o.in_flight ≡ base + length o.sent
  pub queued : o.queued ≡ length o.sent
  pub bounded : o.in_flight ≤ capacity

push-IsWithin :
    (base : ℕ) (job : OutboundJob) (o : Outbox)
    → o.in_flight + 1 ≤ capacity
    → IsWithin base o
    → IsWithin base (push job o)
push-IsWithin base job o b w = record {
  balanced = omega (arith, w.balanced, length-append o.sent (job ∷ []));
  queued = omega (arith, w.queued, length-append o.sent (job ∷ []));
  bounded = b;
}

-- A call ends the loop, or adds a job at most.
abbrev Sends : ℕ → Outbox → Option Outbox → Type 0
Sends base o none = Unit
Sends base o (some o') = IsWithin base o' × (o'.in_flight ≤ o.in_flight + 1)

send_call-Sends :
    (base : ℕ) (receiving : OutboundJob → Bool) (q : OutboundQueue) (call : Json) (o : Outbox)
    → o.in_flight + 1 ≤ capacity
    → IsWithin base o
    → Sends base o (send_call receiving q call o)
unfolding send_call send_job
send_call-Sends base receiving q call o b w = by_id (get_str (lit "call_id") call)
  where
    by_id :
        (id : Option Bytes)
        → Sends base o (elim id [
          | none ↦ some o
          | some id ↦
              if valid_uuid id
              then send_job receiving (record { call_id = id; queue = q; call = marked q call }) o
              else some o
        ])
    by_id none = (w, omega arith)
    by_id (some id) =
        elim (valid_uuid id)
          as (λ b. Sends base o (
            if b
            then send_job receiving (record { call_id = id; queue = q; call = marked q call }) o
            else some o)) [
              | false ↦ (w, omega arith)
              | true ↦
                  elim (receiving (record { call_id = id; queue = q; call = marked q call }))
                    as (λ b. Sends base o (
                      if b
                      then some (push (record { call_id = id; queue = q; call = marked q call }) o)
                      else none)) [ false ↦ tt | true ↦ (push-IsWithin base _ o b w, omega arith) ]
            ]

send_calls-IsWithin :
    (base : ℕ) (receiving : OutboundJob → Bool) (q : OutboundQueue) (calls : Items) (o : Outbox)
    → o.in_flight + count calls ≤ capacity
    → IsWithin base o
    → IsWithin base (send_calls receiving q calls o)
unfolding send_calls
send_calls-IsWithin base receiving q nil o b w = w
send_calls-IsWithin base receiving q (cons call calls) o b w =
    elim (Option-cases (send_call receiving q call o)) [
      | inl e ↦ rw (e, send_calls) w
      | inr (o', e) ↦
          let (w', k) : Sends base o (some o') =
            subst (Sends base o) e (send_call-Sends base receiving q call o (omega (arith, b)) w) in
          rw (e, send_calls)
            (send_calls-IsWithin base receiving q calls o' (omega (arith, b, k)) w')
    ]

module _ (db : Database) (respects : RespectsLimits db) (disabled : Bool) (base : ℕ) where
  fill_from-IsWithin :
      (ready : Bool) (receiving : OutboundJob → Bool) (q : OutboundQueue) (o : Outbox)
      → IsWithin base o
      → Yields (fill_from db disabled ready receiving q o) (IsWithin base)
  unfolding fill_from
  fill_from-IsWithin ready receiving q o w =
      if_Yields (ready && ltb o.in_flight capacity)
        (bind_Yields (claim_for_Yields db respects disabled q (capacity - o.in_flight))
          (λ claimed b. pure_Yields (send_calls receiving q (jobs_in "calls" claimed) o) (
            send_calls-IsWithin base receiving q (jobs_in "calls" claimed) o
              (omega (arith, b, w.bounded)) w)))
        (pure_Yields o w)

  pub fill-IsWithin :
      (ready : Bool) (receiving : OutboundJob → Bool) (o : Outbox)
      → IsWithin base o
      → Yields (fill db disabled ready receiving o) (IsWithin base)
  unfolding fill
  fill-IsWithin ready receiving o w =
      bind_Yields
        (bind_Yields
          (bind_Yields (fill_from-IsWithin ready receiving outbound o w)
            (fill_from-IsWithin ready receiving oauth))
          (fill_from-IsWithin ready receiving agent_embedding))
        (fill_from-IsWithin ready receiving provider_probe)

pub harvest_Yields :
    (db : Database) (disabled : Bool) (rs : List OutboundResult) (n : ℕ)
    → Yields (harvest db disabled rs n) (λ m. m ≡ n - length rs)
unfolding harvest
harvest_Yields db disabled [] n = pure_Yields n (omega arith)
harvest_Yields db disabled (r ∷ rs) n =
    bind_Yields (anything (submit_for db disabled r.queue r.call_id r.status r.body))
      (λ _ _. weaken_Yields (harvest_Yields db disabled rs (n - 1)) (λ m e. omega (arith, e)))
