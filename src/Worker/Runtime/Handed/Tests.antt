-- ===== src/Worker/Runtime/Handed/Tests.antt =====
-- The pumps over a database that has one statement to run, and a result that has come.
use allgres.Base.{true, false, none, [], ◌∷◌, ◌≡◌, refl, ap, if◌then◌else◌}
use allgres.Bytes.{lit}
use allgres.Bytes.Compare.{same}
use allgres.Json.{Json, bool, arr, obj, nil, cons, end, entry, text, get, lookup_field, get_str}
use allgres.Worker.Session.{
  query, begin, commit, value, Database, Session, transaction, end_transaction, drop_privileges,
  spi, returns,
}
use allgres.Worker.Claims.Handed.{TakesResults}
use allgres.Worker.Pumps.Jobs.{
  SqlPumped, FunctionBuildsPumped, FunctionCallsPumped, ProcedureBuildsPumped, ProcedureCallsPumped,
}
use allgres.Worker.Claims.{claim, dropped_or}
use allgres.Worker.Ident.{valid_uuid, uuid_from}
use allgres.Worker.Pumps.{pump_sql}
use allgres.Worker.Outbox.{OutboundResult, oauth, harvest}
use allgres.Worker.Outbox.Harvest.{all_handed_back}
use allgres.Worker.Runtime.Handed.{harvest-handed_back}
use allgres.Worker.Pumps.All.{pumps-PumpsAll}

abbrev statement : Json
statement = obj (
    entry "call_id" (text "01234567-89ab-cdef-0123-456789abcdef") (
      entry "agent_id" (text "89abcdef-0123-4567-89ab-cdef01234567")
        (entry "sql" (text "select 1") end)))

abbrev one_statement : Json
one_statement = obj (entry "calls" (arr (cons statement nil)) end)

-- The claim of a statement is answered with one, anything else with true.
abbrev one_to_run : Database
one_to_run [] = value (bool true)
one_to_run (begin ∷ log) = value (bool true)
one_to_run (commit ∷ log) = value (bool true)
one_to_run (query sql args ∷ log) =
    value
      (if same sql (lit "SELECT allgres_public.fn_claim_sql($1)") then one_statement else bool true)

abbrev fresh : Session
fresh = record { log = []; depth = 0; timer = none }

takes_results : TakesResults one_to_run
unfolding same
takes_results = record {
  drops = λ log. refl;
  takes = λ sql args log known. refl;
  commits = λ log. refl;
}

abbrev come : OutboundResult
come = record {
  call_id = lit "01234567-89ab-cdef-0123-456789abcdef";
  queue = oauth;
  status = 200;
  body = lit "{}";
}

harvest-handed_back_example :
    (harvest one_to_run false (come ∷ []) 3 fresh ≡ (all_handed_back (come ∷ []) fresh, returns 2))
    × SqlPumped one_to_run (λ t. none) fresh
    × (FunctionBuildsPumped one_to_run (λ job. lit "1f") fresh
        × FunctionCallsPumped one_to_run fresh)
    × (ProcedureBuildsPumped one_to_run (λ job. lit "1f") fresh
        × ProcedureCallsPumped one_to_run fresh)
harvest-handed_back_example =
    harvest-handed_back one_to_run (λ t. none) (λ job. lit "1f") (come ∷ []) 3 fresh takes_results

-- The statement is run.
one_run : (pump_sql one_to_run false (λ t. none) fresh).1 ≡ returns 1
unfolding claim transaction end_transaction dropped_or drop_privileges spi same get lookup_field
    get_str valid_uuid uuid_from
one_run =
    ap (λ o. o.1) (pumps-PumpsAll one_to_run (λ t. none) (λ job. lit "1f") fresh takes_results).0.1
