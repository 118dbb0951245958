-- ===== src/Worker/Runtime/Tests.antt =====
-- Rounds of the main loop over a database that always has a call to make.
use Prim.Native.String.{String}
use allgres.Base.{ℕ, zero, suc, ◌≤◌, true, false, none, List, [], ◌∷◌, ◌≡◌, refl, ap, subst, arith}
use allgres.Bytes.{Bytes, lit}
use allgres.Bytes.Compare.{same}
use allgres.Json.{
  Json, bool, arr, obj, str, nil, cons, end, entry, get, lookup_field, get_str, insert_field, text,
}
use allgres.Worker.Session.{
  end_transaction, Statement, query, int_arg, Answer, value, Database, Session, Outcome, returns,
  spi, drop_privileges, transaction,
}
use allgres.Worker.Ident.{valid_uuid, uuid_from}
use allgres.Worker.Policy.{Monitored}
use allgres.Worker.Claims.{
  claim, dropped_or, dispatch_and_claim, watch_and_dispatch, extension_is_installed,
}
use allgres.Worker.Pumps.{
  run_jobs, pump, sql_job, pump_sql, with_some, with_str, pump_function_builds, pump_function_calls,
  pump_procedure_builds, pump_procedure_calls, build_job, call_job,
}
use allgres.Worker.Rpc.{serve}
use allgres.Worker.Outbox.{
  OutboundQueue, outbound, oauth, agent_embedding, provider_probe, OutboundJob, harvest, fill,
  fill_from, send_job, send_call, send_calls,
}
use allgres.Worker.Outbox.Limits.{RespectsLimits, calls_of, claim_sql}
use allgres.Worker.Runtime.{
  Runtime, Round, Effects, start, schedule, propagate_outbound_cancellations, run_pumps, pump_round,
  tick, run,
}
use allgres.Worker.Runtime.Guarded.{run-Monitored}
use allgres.Worker.Runtime.Pool.{Pool, goes_round, IsAccounted}
use allgres.Worker.Runtime.History.{begins, moves, Kept, History-IsAccounted}
use allgres.Config.{Files, System, directory, absent}
use allgres.Worker.Main.{allgres_runtime_main, IsEnded, allgres_runtime_main-IsEnded}

-- A claim for one call at least is answered with a call, anything else with true.
abbrev uuid : Bytes
uuid = lit "01234567-89ab-cdef-0123-456789abcdef"

abbrev call : Json
call = obj (entry "call_id" (str uuid) end)

abbrev one_call : Json
one_call = obj (entry "calls" (arr (cons call nil)) end)

abbrev busy : Database
busy (query sql (int_arg (suc n) ∷ []) ∷ log) = value one_call
busy _ = value (bool true)

abbrev value_in : Answer → Json
value_in (value v) = v
value_in _ = obj end

busy-RespectsLimits : RespectsLimits busy
unfolding get lookup_field same
busy-RespectsLimits = record { respects = by_limit }
  where
    by_limit :
        (q : OutboundQueue) (limit : ℕ) (log : List Statement) (v : Json)
        → busy (query (lit (claim_sql q)) (int_arg limit ∷ []) ∷ log) ≡ value v
        → calls_of v ≤ limit
    by_limit q zero log v e = subst (λ v. calls_of v ≤ 0) (ap value_in e) (omega arith)
    by_limit q (suc n) log v e = subst (λ v. calls_of v ≤ suc n) (ap value_in e) (omega arith)

abbrev fresh : Session
fresh = record { log = []; depth = 0; timer = none }

abbrev round : Round
round = record {
  connections = [];
  results = [];
  flags = none;
  now = 7;
  later = 9;
  receiving = λ _. true;
  nanos = λ _. [];
}

-- A round claims a call for each of the four queues.
abbrev job : OutboundQueue → String → OutboundJob
job q kind = record {
  call_id = uuid;
  queue = q;
  call = obj (entry "call_id" (str uuid) (entry "kind" (text kind) end));
}

abbrev first_tick : Session × Outcome (Runtime × Effects)
first_tick = tick busy false (λ _. []) (λ _. true) (λ _. none) round (start 0) fresh

abbrev first_runtime : Runtime
first_runtime = record { in_flight = 4; ready = true; next_pump = 159; idle_delay = 500 }

abbrev first_effects : Effects
first_effects = record {
  replies = [];
  cancelled = [];
  sent =
      record { call_id = uuid; queue = outbound; call = call }
      ∷ job oauth "oauth"
      ∷ job agent_embedding "embedding"
      ∷ job provider_probe "function"
      ∷ [];
}

first_tick_lem : first_tick ≡ (first_tick.0, returns (first_runtime, first_effects))
unfolding tick pump_round run_pumps schedule propagate_outbound_cancellations serve harvest fill
    fill_from send_calls send_call send_job extension_is_installed transaction end_transaction spi
    drop_privileges dropped_or claim dispatch_and_claim watch_and_dispatch pump run_jobs sql_job
    pump_sql with_some with_str pump_function_builds pump_function_calls pump_procedure_builds
    pump_procedure_calls build_job call_job get get_str lookup_field same valid_uuid uuid_from
    insert_field
first_tick_lem = refl

run-Monitored_example :
    Monitored busy []
      (run busy false (λ _. []) (λ _. true) (λ _. none) (round ∷ []) (start 0) fresh).0.log
run-Monitored_example = run-Monitored busy (λ _. []) (λ _. true) (λ _. none) (round ∷ []) 0 fresh

abbrev at_start : Pool
at_start = record { runtime = start 0; jobs = []; at_work = []; results = []; died = 0 }

abbrev after_round : Pool
after_round = record at_start { runtime = first_runtime; jobs = first_effects.sent }

History-IsAccounted_example :
    Kept (λ id q. true) after_round first_effects.sent [] [] × IsAccounted after_round
History-IsAccounted_example =
    History-IsAccounted busy false (λ _. []) (λ _. true) (λ _. none) (λ id q. true) after_round
      first_effects.sent [] [] busy-RespectsLimits
      (moves at_start after_round [] [] [] (begins 0)
        (goes_round fresh first_tick.0 round first_runtime first_effects refl first_tick_lem))

-- A worker whose directory is open to others at first.
abbrev willing : System
willing = record {
  can_create = true;
  can_stat = true;
  can_tighten = true;
  can_remove = true;
  can_bind = true;
  can_restrict = true;
  created_mode = 448;
  bound_mode = 493;
}

abbrev open_files : Files
open_files = record { dir = directory 493; sock = absent }

allgres_runtime_main-IsEnded_example : IsEnded busy willing open_files fresh (
    allgres_runtime_main busy false
      (λ _. [])
      (λ _. true)
      (λ _. none)
      willing
      true
      (round ∷ [])
      0
      open_files
      fresh)
allgres_runtime_main-IsEnded_example =
    allgres_runtime_main-IsEnded busy (λ _. []) (λ _. true) (λ _. none) willing true (round ∷ []) 0
      open_files fresh
