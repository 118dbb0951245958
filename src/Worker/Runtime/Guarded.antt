-- ===== src/Worker/Runtime/Guarded.antt =====
-- Whatever the runtime worker sends, it sends behind a drop of privileges, and by the policy.
use allgres.Base.{ℕ, Bool, true, false, Option, none, some, List, [], ◌∷◌, ◌≡◌, ltb, if◌then◌else◌}
use allgres.Bytes.{Bytes}
use allgres.Json.{Json}
use allgres.Worker.Session.{Statement, Database, Session, Outcome, returns, unwinds, Exec, pure}
use allgres.Worker.Policy.{Monitored, is_guarded, Monitored-guarded}
use allgres.Worker.Guard.{Anything, Leaves, Keeps, bind_Triple, pure-Keeps}
use allgres.Worker.Guard.Queues.{extension_is_installed-Keeps, lost_outbound-Keeps}
use allgres.Worker.Pumps.Guarded.{
  pump_sql-Keeps, pump_function_builds-Keeps, pump_function_calls-Keeps,
  pump_procedure_builds-Keeps, pump_procedure_calls-Keeps,
}
use allgres.Worker.Rpc.Guarded.{serve-Keeps}
use allgres.Worker.Outbox.Guarded.{fill-Keeps, harvest-Keeps}
use allgres.Worker.Runtime.{
  Runtime, Round, start, run_pumps, propagate_outbound_cancellations, pump_round, tick, run,
}

module _ (db : Database) (to_i64 : Bytes → Option ℕ) where
  if-Keeps :
      {A : Type 0} {m n : Exec A} (b : Bool)
      → Keeps db m
      → Keeps db n
      → Keeps db (if b then m else n)
  if-Keeps true h k = h
  if-Keeps false h k = k

  ready-Keeps : {m : Exec ℕ} (ready : Bool) → Keeps db m → Keeps db (if ready then m else pure 0)
  ready-Keeps ready h = if-Keeps ready h (pure-Keeps db 0)

  run_pumps-Keeps :
      (ready : Bool) (nanos : Json → Bytes) → Keeps db (run_pumps db false to_i64 ready nanos)
  unfolding run_pumps
  run_pumps-Keeps ready nanos = bind_Triple db (ready-Keeps ready (pump_sql-Keeps db to_i64)) (λ a.
      bind_Triple db (ready-Keeps ready (pump_function_builds-Keeps db nanos)) (λ b.
        bind_Triple db (ready-Keeps ready (pump_function_calls-Keeps db)) (λ c.
          bind_Triple db (ready-Keeps ready (pump_procedure_builds-Keeps db nanos)) (λ d.
            bind_Triple db (ready-Keeps ready (pump_procedure_calls-Keeps db))
              (λ e. pure-Keeps db _)))))

  propagate-Keeps :
      (flags : Option (List Bytes)) → Keeps db (propagate_outbound_cancellations db false flags)
  unfolding propagate_outbound_cancellations
  propagate-Keeps none = pure-Keeps db []
  propagate-Keeps (some ids) = lost_outbound-Keeps db ids

  pump_round-Keeps : (i : Round) (r : Runtime) → Keeps db (pump_round db false to_i64 i r)
  unfolding pump_round
  pump_round-Keeps i r = bind_Triple db (extension_is_installed-Keeps db) (λ ready.
      bind_Triple db (fill-Keeps db ready i.receiving _)
        (λ o. bind_Triple db (run_pumps-Keeps ready i.nanos) (λ ran. pure-Keeps db _)))

module _ (db : Database) (print : Json → Bytes) (parses : Bytes → Bool)
    (to_i64 : Bytes → Option ℕ) where
  tick-Keeps : (i : Round) (r : Runtime) → Keeps db (tick db false print parses to_i64 i r)
  unfolding tick
  tick-Keeps i r = bind_Triple db (serve-Keeps db print parses r.ready i.connections) (λ replies.
      bind_Triple db (harvest-Keeps db i.results r.in_flight) (λ in_flight.
        bind_Triple db (propagate-Keeps db to_i64 i.flags) (λ cancelled.
          bind_Triple db
            (if-Keeps db to_i64 (ltb i.now r.next_pump) (pure-Keeps db _)
              (pump_round-Keeps db to_i64 i _))
            (λ p. pure-Keeps db _))))

  run-Keeps : (is : List Round) (r : Runtime) → Keeps db (run db false print parses to_i64 is r)
  unfolding run
  run-Keeps [] r = pure-Keeps db r
  run-Keeps (i ∷ is) r = bind_Triple db (tick-Keeps i r) (λ p. run-Keeps is p.0)

Leaves-Monitored :
    {A : Type 0} (db : Database) (old : List Statement) (o : Session × Outcome A)
    → Leaves db old (λ _. Anything) o
    → Monitored db old o.0.log
Leaves-Monitored db old (s, returns a) h = h.0
Leaves-Monitored db old (s, unwinds e) h = h

-- Unless the drop of privileges is switched off, whatever the runtime worker sends to the database
-- is on a closed list, in any number of rounds, whatever comes and whatever the database answers.
-- Before the drop has been answered true in the same block of a transaction it is the question
-- whether the extension is installed, or the drop. Behind it, it is one of 22 fixed statements of
-- the worker's own, or a setting. What an agent or an operator has written is sent only where the
-- block consists of the drop and of these settings, none of which has failed: for a sandboxed
-- statement an agent's role, the empty search path, the read-only mode, 5 s and the agent's name;
-- for the call of a function or a procedure, whose name has the form that the database gives, an
-- agent's role, the empty search path and 5 s or 60 s; for a build the builder's role, and then the
-- name has that form and the body is between delimiters that it does not hold.
pub run-Monitored :
    (db : Database) (print : Json → Bytes) (parses : Bytes → Bool) (to_i64 : Bytes → Option ℕ)
    (rounds : List Round) (now : ℕ) (s : Session)
    → Monitored db s.log (run db false print parses to_i64 rounds (start now) s).0.log
run-Monitored db print parses to_i64 rounds now s =
    Leaves-Monitored db s.log (run db false print parses to_i64 rounds (start now) s)
      ((run-Keeps db print parses to_i64 rounds (start now)).leaves s tt)

-- Unless the drop of privileges is switched off, the runtime worker never speaks to the database
-- with the privileges that it started with: in any number of rounds, whatever comes and whatever
-- the database answers, every statement but the question whether the extension is installed and the
-- drop itself is sent behind a call of `assume_worker_role` that was answered true in the same
-- transaction.
pub run-guarded :
    (db : Database) (print : Json → Bytes) (parses : Bytes → Bool) (to_i64 : Bytes → Option ℕ)
    (rounds : List Round) (now : ℕ) (s : Session)
    → is_guarded db s.log ≡ true
    → is_guarded db (run db false print parses to_i64 rounds (start now) s).0.log ≡ true
run-guarded db print parses to_i64 rounds now s h =
    Monitored-guarded db (run-Monitored db print parses to_i64 rounds now s) h
