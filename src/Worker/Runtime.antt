-- ===== src/Worker/Runtime.antt =====
-- src/runtime_worker.rs `allgres_runtime_main`: the main loop of the runtime worker, a round at a
-- time. Times are in milliseconds.
pub mod Guarded
pub mod Idle
pub mod Pool
pub mod History
pub mod Handed
pub mod Tests
use allgres.Base.{
  ℕ, ◌+◌, ◌*◌, Bool, false, ◌||◌, Option, none, some, List, [], ◌∷◌, ltb, min, if◌then◌else◌,
}
use allgres.Bytes.{Bytes}
use allgres.Json.{Json}
use allgres.Worker.Session.{Database, Exec, ◌>>=◌, pure}
use allgres.Worker.Claims.{extension_is_installed, lost_outbound}
use allgres.Worker.Pumps.{
  pump_sql, pump_function_builds, pump_function_calls, pump_procedure_builds, pump_procedure_calls,
}
use allgres.Worker.Rpc.{serve}
use allgres.Worker.Outbox.{OutboundJob, OutboundResult, harvest, fill}

abbrev pub pump_busy : ℕ
pump_busy = 150

abbrev pub pump_idle_min : ℕ
pump_idle_min = 500

abbrev pub pump_idle_max : ℕ
pump_idle_max = 4000

-- The variables of the loop.
pub record Runtime : Type 0 where
  pub in_flight : ℕ
  pub ready : Bool
  pub next_pump : ℕ
  pub idle_delay : ℕ

abbrev pub start : ℕ → Runtime
start now = record { in_flight = 0; ready = false; next_pump = now; idle_delay = pump_idle_min }

-- What a round finds: the connections that wait, the results that have come, the calls with a flag
-- (none where the lock is poisoned), the clock at the test and at the end, whether a thread
-- receives a job, and the clock's digits when a body is quoted.
pub record Round : Type 0 where
  pub connections : List (Option Bytes)
  pub results : List OutboundResult
  pub flags : Option (List Bytes)
  pub now : ℕ
  pub later : ℕ
  pub receiving : OutboundJob → Bool
  pub nanos : Json → Bytes

-- What a round does outside of the database: the replies, the calls whose flag is set, and the
-- jobs sent to the pool.
pub record Effects : Type 0 where
  pub replies : List Bytes
  pub cancelled : List Bytes
  pub sent : List OutboundJob

-- When to pump next.
pub schedule : Bool → ℕ → Runtime → Runtime
schedule worked now r =
    if worked
    then record r { idle_delay = pump_idle_min; next_pump = now + pump_busy }
    else record r {
      next_pump = now + r.idle_delay;
      idle_delay = min (r.idle_delay * 2) pump_idle_max;
    }

abbrev only_ready : Bool → Exec ℕ → Exec ℕ
only_ready ready m = if ready then m else pure 0

module _ (db : Database) (disabled : Bool) where
  -- `propagate_outbound_cancellations`: the calls whose flag is set.
  pub propagate_outbound_cancellations : Option (List Bytes) → Exec (List Bytes)
  propagate_outbound_cancellations none = pure []
  propagate_outbound_cancellations (some ids) = lost_outbound db disabled ids

module _ (db : Database) (disabled : Bool) (to_i64 : Bytes → Option ℕ) where
  -- The pumps, one after the other: how many jobs they ran.
  pub run_pumps : Bool → (Json → Bytes) → Exec ℕ
  run_pumps ready nanos = only_ready ready (pump_sql db disabled to_i64) >>= (λ sql_ran.
      only_ready ready (pump_function_builds db disabled nanos) >>= (λ builds.
        only_ready ready (pump_function_calls db disabled) >>= (λ calls.
          only_ready ready (pump_procedure_builds db disabled nanos) >>= (λ proc_builds.
            only_ready ready (pump_procedure_calls db disabled)
            >>= (λ proc_calls. pure (sql_ran + (builds + calls) + (proc_builds + proc_calls)))))))

  -- What is done when the time to pump has come.
  pub pump_round : Round → Runtime → Exec (Runtime × List OutboundJob)
  pump_round i r = extension_is_installed db >>= (λ ready.
      fill db disabled ready i.receiving (record { in_flight = r.in_flight; queued = 0; sent = [] })
      >>= (λ o. run_pumps ready i.nanos >>= (λ ran. pure (
        schedule (ltb 0 o.queued || ltb 0 ran) i.later
            (record r { in_flight = o.in_flight; ready = ready }),
        o.sent,
      ))))

module _ (db : Database) (disabled : Bool) (print : Json → Bytes) (parses : Bytes → Bool)
    (to_i64 : Bytes → Option ℕ) where
  -- One round of the loop.
  pub tick : Round → Runtime → Exec (Runtime × Effects)
  tick i r = serve db disabled print parses r.ready i.connections >>= (λ replies.
      harvest db disabled i.results r.in_flight >>= (λ in_flight.
        propagate_outbound_cancellations db disabled i.flags >>= (λ cancelled.
          (if ltb i.now r.next_pump
            then pure (record r { in_flight = in_flight }, [])
            else pump_round db disabled to_i64 i (record r { in_flight = in_flight }))
          >>= (λ p. pure (p.0, record { replies = replies; cancelled = cancelled; sent = p.1 })))))

  -- Rounds until the worker is told to stop.
  pub run : List Round → Runtime → Exec Runtime
  run [] r = pure r
  run (i ∷ is) r = tick i r >>= (λ p. run is p.0)
