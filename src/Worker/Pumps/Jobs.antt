-- ===== src/Worker/Pumps/Jobs.antt =====
-- The jobs of the five queues: which are run, how, and what is told of them.
use Prim.Native.String.{String}
use mathlib.Core.Option
use allgres.Base.{ℕ, Bool, true, false, ◌&&◌, Option, none, some, List, [], ◌∷◌, value_or}
use allgres.Bytes.{Bytes, lit}
use allgres.Json.{Json, get_str}
use allgres.Worker.Ident.{valid_uuid}
use allgres.Worker.SqlOutcome.{sql_outcome}
use allgres.Worker.Session.{
  Arg, text_arg, bool_arg, json_arg, absent, Database, Session, Result, ok, err, Exec,
}
use allgres.Worker.Execute.{
  run_sandboxed_sql, run_function_call, run_procedure_call, run_function_build, run_procedure_build,
}
use allgres.Worker.Claims.{
  claim_sql_jobs, claim_function_build_jobs, claim_function_call_jobs, claim_procedure_build_jobs,
  claim_procedure_call_jobs,
}
use allgres.Worker.Pumps.{
  sql_claim_limit, args_of, pump_sql, pump_function_builds, pump_function_calls,
  pump_procedure_builds, pump_procedure_calls,
}
use allgres.Worker.Claims.Handed.{
  complete_sql, complete_function_build, complete_function_call, complete_procedure_build,
  complete_procedure_call,
}
use allgres.Worker.Pumps.Completed.{PumpsAll}

abbrev pub is_some : Option Bytes → Bool
is_some none = false
is_some (some s) = true

-- Whether a job has a string, and whether it is a UUID; the string, empty where there is none.
abbrev pub has_str : String → Json → Bool
has_str key job = is_some (get_str (lit key) job)

abbrev pub has_uuid : String → Json → Bool
has_uuid key job = value_or false (Option.map valid_uuid (get_str (lit key) job))

abbrev pub str_at : String → Json → Bytes
str_at key job = value_or [] (get_str (lit key) job)

-- Which jobs are run.
abbrev pub is_sql_job : Json → Bool
is_sql_job job = has_uuid "call_id" job && (has_uuid "agent_id" job && has_str "sql" job)

abbrev pub is_build : String → Json → Bool
is_build id_key job = has_uuid id_key job && (has_str "sql_ident" job && has_str "body" job)

abbrev pub is_call : Json → Bool
is_call job = has_uuid "call_id" job && has_str "sql_ident" job

-- What the database is told of a build: whether it went well, and the error.
abbrev pub told_build : Bytes → Result Json → List Arg
told_build id (ok v) = text_arg id ∷ bool_arg true ∷ absent ∷ []
told_build id (err e) = text_arg id ∷ bool_arg false ∷ text_arg e ∷ []

-- Of a call: whether it went well, its value, and the error.
abbrev pub told_call : Bytes → Result Json → List Arg
told_call id (ok v) = text_arg id ∷ bool_arg true ∷ json_arg v ∷ absent ∷ []
told_call id (err e) = text_arg id ∷ bool_arg false ∷ absent ∷ text_arg e ∷ []

-- How a job is run.
abbrev pub run_sql : Database → Json → Exec (Result Json)
run_sql db job =
    run_sandboxed_sql db false (str_at "agent_id" job) (str_at "sql" job)
      (get_str (lit "pg_role") job)

abbrev pub run_build :
    (Bytes → Bytes → Bytes → Exec (Result Json)) → (Json → Bytes) → Json → Exec (Result Json)
run_build build nanos job = build (nanos job) (str_at "sql_ident" job) (str_at "body" job)

abbrev pub run_call : (Bytes → Json → Option Bytes → Exec (Result Json)) → Json → Exec (Result Json)
run_call call job = call (str_at "sql_ident" job) (args_of job) (get_str (lit "pg_role") job)

-- What the database is told of a job.
abbrev pub tell_sql : (Bytes → Option ℕ) → Json → Result Json → List Arg
tell_sql to_i64 job o = text_arg (str_at "call_id" job) ∷ sql_outcome to_i64 o

abbrev pub tell_build : String → Json → Result Json → List Arg
tell_build id_key job = told_build (str_at id_key job)

abbrev pub tell_call : Json → Result Json → List Arg
tell_call job = told_call (str_at "call_id" job)

-- What each pump comes to.
abbrev pub SqlPumped : Database → (Bytes → Option ℕ) → Session → Type 0
SqlPumped db to_i64 s =
    PumpsAll is_sql_job (run_sql db) complete_sql (tell_sql to_i64) "calls"
      (claim_sql_jobs db false sql_claim_limit s) (pump_sql db false to_i64 s)

abbrev pub FunctionBuildsPumped : Database → (Json → Bytes) → Session → Type 0
FunctionBuildsPumped db nanos s =
    PumpsAll (is_build "function_id") (run_build (run_function_build db false) nanos)
      complete_function_build (tell_build "function_id") "builds"
      (claim_function_build_jobs db false sql_claim_limit s) (pump_function_builds db false nanos s)

abbrev pub FunctionCallsPumped : Database → Session → Type 0
FunctionCallsPumped db s =
    PumpsAll is_call (run_call (run_function_call db false)) complete_function_call tell_call
      "calls" (claim_function_call_jobs db false sql_claim_limit s) (pump_function_calls db false s)

abbrev pub ProcedureBuildsPumped : Database → (Json → Bytes) → Session → Type 0
ProcedureBuildsPumped db nanos s =
    PumpsAll (is_build "procedure_id") (run_build (run_procedure_build db false) nanos)
      complete_procedure_build (tell_build "procedure_id") "builds"
      (claim_procedure_build_jobs db false sql_claim_limit s)
      (pump_procedure_builds db false nanos s)

abbrev pub ProcedureCallsPumped : Database → Session → Type 0
ProcedureCallsPumped db s =
    PumpsAll is_call (run_call (run_procedure_call db false)) complete_procedure_call tell_call
      "calls" (claim_procedure_call_jobs db false sql_claim_limit s)
      (pump_procedure_calls db false s)
