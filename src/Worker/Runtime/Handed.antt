-- ===== src/Worker/Runtime/Handed.antt =====
-- What the main loop of the runtime worker hands back to the database.
pub mod Tests
use allgres.Base.{ℕ, ◌-◌, false, Option, List, ◌≡◌, length}
use allgres.Bytes.{Bytes}
use allgres.Json.{Json}
use allgres.Worker.Session.{Database, Session, returns}
use allgres.Worker.Claims.Handed.{TakesResults}
use allgres.Worker.Pumps.Jobs.{
  SqlPumped, FunctionBuildsPumped, FunctionCallsPumped, ProcedureBuildsPumped, ProcedureCallsPumped,
}
use allgres.Worker.Pumps.All.{pumps-PumpsAll}
use allgres.Worker.Outbox.{OutboundResult, harvest}
use allgres.Worker.Outbox.Harvest.{all_handed_back, harvest-all_handed_back}

-- The runtime worker hands back all that it has run, if the database agrees to each drop of
-- privileges and takes each result, and no commit raises an ERROR. The results of outbound calls go back in the order in which
-- they came, each once, to its own queue and under its own id. A pump runs what it claims, job
-- after job, unless a job lacks a string that it needs or a valid UUID; what a job comes to is
-- handed back under its own id before the next one is run; and the pump gives the number of these
-- jobs. Only an ERROR of the claim itself stops a pump.
pub harvest-handed_back :
    (db : Database) (to_i64 : Bytes → Option ℕ) (nanos : Json → Bytes) (rs : List OutboundResult)
    (in_flight : ℕ) (s : Session)
    → TakesResults db
    → (harvest db false rs in_flight s ≡ (all_handed_back rs s, returns (in_flight - length rs)))
      × SqlPumped db to_i64 s
      × (FunctionBuildsPumped db nanos s × FunctionCallsPumped db s)
      × (ProcedureBuildsPumped db nanos s × ProcedureCallsPumped db s)
harvest-handed_back db to_i64 nanos rs in_flight s d =
    let (sql, functions, procedures) = pumps-PumpsAll db to_i64 nanos s d in
    (harvest-all_handed_back db rs in_flight s d, sql, functions, procedures)
