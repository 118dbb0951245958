-- ===== src/Worker/Runtime/Pool.antt =====
-- The main loop and the pool of HTTP threads (src/outbound.rs `spawn_http_pool`) side by side: what
-- each may do next, and that the count of the calls in flight is right whatever they do.
use allgres.Base.{
  ℕ, ◌+◌, ◌-◌, ◌≤◌, ◌<◌, Bool, true, false, Option, List, [], ◌∷◌, ◌++◌, ◌≡◌, refl, sym, ap, subst,
  ◌||◌, arith, ltb, length, length-append,
}
use allgres.Bytes.{Bytes}
use allgres.Json.{Json}
use allgres.Worker.Session.{Database, Session, returns}
use allgres.Worker.Yields.{
  Good, Yields, bind_Yields, pure_Yields, anything, if_Yields, weaken_Yields,
}
use allgres.Worker.Rpc.{serve}
use allgres.Worker.Claims.{extension_is_installed}
use allgres.Worker.Outbox.{OutboundJob, OutboundResult, http_threads, capacity}
use allgres.Worker.Outbox.Limits.{RespectsLimits}
use allgres.Worker.Outbox.Bounds.{fill-IsWithin, harvest_Yields}
use allgres.Worker.Runtime.{
  Runtime, Round, Effects, start, schedule, run_pumps, propagate_outbound_cancellations, pump_round,
  tick,
}

-- The main loop's variables; the jobs that wait, those at work, the results that wait, and how many
-- threads have died at their jobs.
pub record Pool : Type 0 where
  pub runtime : Runtime
  pub jobs : List OutboundJob
  pub at_work : List OutboundJob
  pub results : List OutboundResult
  pub died : ℕ

abbrev pub result_for : OutboundJob → ℕ → Bytes → OutboundResult
result_for job status body = record {
  call_id = job.call_id;
  queue = job.queue;
  status = status;
  body = body;
}

module _ (db : Database) (disabled : Bool) (print : Json → Bytes) (parses : Bytes → Bool)
    (to_i64 : Bytes → Option ℕ) where
  -- What may happen next: an idle thread takes the first job, a thread sends its result or dies, or
  -- the main loop goes round once and takes all results.
  pub data Step (p : Pool) : Pool → Type 0 where
    takes :
        (job : OutboundJob) (rest : List OutboundJob)
        → p.jobs ≡ job ∷ rest
        → length p.at_work + p.died < http_threads
        → Step p (record p { jobs = rest; at_work = job ∷ p.at_work })
    finishes :
        (job : OutboundJob) (before after : List OutboundJob) (status : ℕ) (body : Bytes)
        → p.at_work ≡ before ++ job ∷ after
        → Step p (record p {
          at_work = before ++ after;
          results = p.results ++ result_for job status body ∷ [];
        })
    dies :
        (job : OutboundJob) (before after : List OutboundJob)
        → p.at_work ≡ before ++ job ∷ after
        → Step p (record p { at_work = before ++ after; died = p.died + 1 })
    goes_round :
        (s s' : Session) (i : Round) (r : Runtime) (e : Effects)
        → i.results ≡ p.results
        → tick db disabled print parses to_i64 i p.runtime s ≡ (s', returns (r, e))
        → Step p (record p { runtime = r; jobs = p.jobs ++ e.sent; results = [] })

  pub data Reachable : Pool → Type 0 where
    starts :
        (now : ℕ)
        → Reachable
            (record { runtime = start now; jobs = []; at_work = []; results = []; died = 0 })
    goes_on : (p q : Pool) → Reachable p → Step p q → Reachable q

-- The calls in flight are the jobs and results on their way and the jobs that died, and no more
-- than the capacity.
pub record IsAccounted (p : Pool) : Type 0 where
  pub accounted : p.runtime.in_flight ≡ length p.jobs + length p.at_work + length p.results + p.died
  pub bounded : p.runtime.in_flight ≤ capacity

schedule-in_flight :
    (worked : Bool) (now : ℕ) (r : Runtime) → (schedule worked now r).in_flight ≡ r.in_flight
unfolding schedule
schedule-in_flight true now r = refl
schedule-in_flight false now r = refl

-- From `base` calls in flight on, a round adds the jobs that it sends.
abbrev Adds : ℕ → ℕ → ℕ → Type 0
Adds base sent in_flight = (in_flight ≡ base + sent) × (in_flight ≤ capacity)

schedule-Adds :
    (worked : Bool) (now : ℕ) (r : Runtime) (base sent : ℕ)
    → Adds base sent r.in_flight
    → Adds base sent (schedule worked now r).in_flight
schedule-Adds worked now r base sent a =
    subst (Adds base sent) (sym (schedule-in_flight worked now r)) a

module _ (db : Database) (respects : RespectsLimits db) (disabled : Bool)
    (to_i64 : Bytes → Option ℕ) where
  pump_round-Adds :
      (i : Round) (r : Runtime)
      → r.in_flight ≤ capacity
      → Yields
          (pump_round db disabled to_i64 i r)
          (λ p. Adds r.in_flight (length p.1) p.0.in_flight)
  unfolding pump_round
  pump_round-Adds i r b = bind_Yields (anything (extension_is_installed db)) (λ ready _.
      bind_Yields
        (fill-IsWithin db respects disabled r.in_flight ready i.receiving
          (record { in_flight = r.in_flight; queued = 0; sent = [] })
          (record { balanced = omega arith; queued = omega arith; bounded = b }))
        (λ o w. bind_Yields (anything (run_pumps db disabled to_i64 ready i.nanos)) (λ ran _.
          let after : Runtime = record r { in_flight = o.in_flight; ready = ready } in
          let worked : Bool = ltb 0 o.queued || ltb 0 ran in
          pure_Yields (schedule worked i.later after, o.sent)
            (schedule-Adds worked i.later after _ _ (w.balanced, w.bounded)))))

  tick-Adds :
      (print : Json → Bytes) (parses : Bytes → Bool) (i : Round) (r : Runtime)
      → r.in_flight ≤ capacity
      → Yields
          (tick db disabled print parses to_i64 i r)
          (λ p. Adds (r.in_flight - length i.results) (length p.1.sent) p.0.in_flight)
  unfolding tick
  tick-Adds print parses i r b =
      bind_Yields (anything (serve db disabled print parses r.ready i.connections)) (λ replies _.
        bind_Yields (harvest_Yields db disabled i.results r.in_flight) (λ n e.
          bind_Yields (anything (propagate_outbound_cancellations db disabled i.flags))
            (λ cancelled _.
              bind_Yields
                (if_Yields (ltb i.now r.next_pump)
                  (pure_Yields (record r { in_flight = n }, [])
                    (omega (arith, e), omega (arith, e, b)))
                  (weaken_Yields
                    (pump_round-Adds i (record r { in_flight = n }) (omega (arith, e, b)))
                    (λ p a. (omega (arith, e, a.0), a.1))))
                (λ p a.
                  pure_Yields (p.0, record { replies = replies; cancelled = cancelled; sent = p.1 })
                    a))))

module _ (db : Database) (respects : RespectsLimits db) (disabled : Bool) (print : Json → Bytes)
    (parses : Bytes → Bool) (to_i64 : Bytes → Option ℕ) where
  Step-IsAccounted :
      (p q : Pool) → Step db disabled print parses to_i64 p q → IsAccounted p → IsAccounted q
  Step-IsAccounted p q (takes job rest e l) c = record {
    accounted = omega (arith, c.accounted, ap length e);
    bounded = c.bounded;
  }
  Step-IsAccounted p q (finishes job before after status body e) c = record {
    accounted = omega (
      arith,
      c.accounted,
      ap length e,
      length-append before (job ∷ after),
      length-append before after,
      length-append p.results (result_for job status body ∷ []),
    );
    bounded = c.bounded;
  }
  Step-IsAccounted p q (dies job before after e) c = record {
    accounted = omega (
      arith,
      c.accounted,
      ap length e,
      length-append before (job ∷ after),
      length-append before after,
    );
    bounded = c.bounded;
  }
  Step-IsAccounted p q (goes_round s s' i r e same_results t) c =
      let (added, b) : Adds (p.runtime.in_flight - length i.results) (length e.sent) r.in_flight =
        subst
          (Good
            (λ o. Adds (p.runtime.in_flight - length i.results) (length o.1.sent) o.0.in_flight))
          t ((tick-Adds db respects disabled to_i64 print parses i p.runtime c.bounded).yields s) in
      record {
        accounted =
            omega (arith, c.accounted, added, ap length same_results, length-append p.jobs e.sent);
        bounded = b;
      }

  -- At any time, whatever the threads and the database do, as long as the database claims no more
  -- calls than it is asked for: at most 8 calls are in flight, and the count is that of the jobs
  -- that wait or are worked on, the results that wait, and the jobs that a thread has died at.
  pub reachable-IsAccounted :
      (p : Pool) → Reachable db disabled print parses to_i64 p → IsAccounted p
  reachable-IsAccounted p (starts now) = record { accounted = omega arith; bounded = omega arith }
  reachable-IsAccounted p (goes_on q _ reached step) =
      Step-IsAccounted q p step (reachable-IsAccounted q reached)
