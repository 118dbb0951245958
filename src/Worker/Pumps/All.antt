-- ===== src/Worker/Pumps/All.antt =====
-- Each of the five pumps runs and hands back all that it claims.
use Prim.Native.String.{String}
use mathlib.Core.Option
use allgres.Base.{
  ℕ, Bool, true, false, ◌&&◌, Option, none, some, [], ◌≡◌, refl, if◌then◌else◌, value_or, arith,
}
use allgres.Bytes.{Bytes, lit}
use allgres.Bytes.Compare.{same}
use allgres.Json.{Json, get_str}
use allgres.Worker.Ident.{valid_uuid}
use allgres.Worker.Session.{Database, Session, Result, ok, err, Exec}
use allgres.Worker.Execute.{
  run_sandboxed_sql, run_function_call, run_procedure_call, run_function_build, run_procedure_build,
}
use allgres.Worker.Execute.Returns.{
  Returned, run_sandboxed_sql-Returns, run_function_call-Returns, run_procedure_call-Returns,
  run_function_build-Returns, run_procedure_build-Returns,
}
use allgres.Worker.Claims.{
  claim_sql_jobs, claim_function_build_jobs, claim_function_call_jobs, claim_procedure_build_jobs,
  claim_procedure_call_jobs, submit_sql_result, submit_build, submit_call, submit_with,
}
use allgres.Worker.Pumps.{
  sql_claim_limit, args_of, run_and_submit, skip, with_some, only_if, with_str, sql_job, build_job,
  call_job, pump_sql, pump_function_builds, pump_function_calls, pump_procedure_builds,
  pump_procedure_calls,
}
use allgres.Worker.Claims.Handed.{
  complete_sql, complete_function_build, complete_function_call, complete_procedure_build,
  complete_procedure_call, is_completion, TakesResults,
}
use allgres.Worker.Pumps.Completed.{Treats, pump-PumpsAll}
use allgres.Worker.Pumps.Jobs.{
  is_some, str_at, is_sql_job, is_build, is_call, told_build, told_call, run_sql, run_build,
  run_call, tell_sql, tell_build, tell_call, SqlPumped, FunctionBuildsPumped, FunctionCallsPumped,
  ProcedureBuildsPumped, ProcedureCallsPumped,
}

sql_treated :
    (a b c : Option Bytes) (m : Bytes → Bytes → Bytes → Exec Bool)
    → with_some a (λ x.
      with_some b (λ y. with_some c (λ z. only_if (valid_uuid x && valid_uuid y) (m x y z))))
      ≡ (if value_or false (Option.map valid_uuid a)
            && (value_or false (Option.map valid_uuid b) && is_some c)
          then m (value_or [] a) (value_or [] b) (value_or [] c)
          else skip)
unfolding with_some only_if
sql_treated none b c m = refl
sql_treated (some x) none c m = ground arith
sql_treated (some x) (some y) none m = ground arith
sql_treated (some x) (some y) (some z) m = ground arith

build_treated :
    (a b c : Option Bytes) (m : Bytes → Bytes → Bytes → Exec Bool)
    → with_some a (λ x. with_some b (λ y. with_some c (λ z. only_if (valid_uuid x) (m x y z)))) ≡ (
        if value_or false (Option.map valid_uuid a) && (is_some b && is_some c)
        then m (value_or [] a) (value_or [] b) (value_or [] c)
        else skip)
unfolding with_some only_if
build_treated none b c m = refl
build_treated (some x) none c m = ground arith
build_treated (some x) (some y) none m = ground arith
build_treated (some x) (some y) (some z) m = ground arith

call_treated :
    (a b : Option Bytes) (m : Bytes → Bytes → Exec Bool)
    → with_some a (λ x. with_some b (λ y. only_if (valid_uuid x) (m x y))) ≡ (
        if value_or false (Option.map valid_uuid a) && is_some b
        then m (value_or [] a) (value_or [] b)
        else skip)
unfolding with_some only_if
call_treated none b m = refl
call_treated (some x) none m = ground arith
call_treated (some x) (some y) m = ground arith

told_build-submit :
    (db : Database) (sql : String) (id : Bytes) (o : Result Json)
    → submit_build db false sql id o ≡ submit_with db false sql (told_build id o)
told_build-submit db sql id (ok v) = refl
told_build-submit db sql id (err e) = refl

told_call-submit :
    (db : Database) (sql : String) (id : Bytes) (o : Result Json)
    → submit_call db false sql id o ≡ submit_with db false sql (told_call id o)
told_call-submit db sql id (ok v) = refl
told_call-submit db sql id (err e) = refl

module _ (db : Database) where
  build_job-Treats :
      (id_key sql : String) (build : Bytes → Bytes → Bytes → Exec (Result Json))
      (nanos : Json → Bytes)
      → ((n name body : Bytes) → Returned db (build n name body))
      → is_completion (lit sql) ≡ true
      → Treats db
          (λ job. build_job db false id_key (build (nanos job)) (submit_build db false sql) job)
          (is_build id_key)
          (run_build build nanos)
          (λ job. submit_build db false sql (str_at id_key job))
          sql
          (tell_build id_key)
  unfolding build_job with_str
  build_job-Treats id_key sql build nanos back known = record {
    treats = λ job. build_treated _ _ _ _;
    comes_back = λ job. back (nanos job) (str_at "sql_ident" job) (str_at "body" job);
    tells = λ job. told_build-submit db sql (str_at id_key job);
    known = known;
  }

  call_job-Treats :
      (sql : String) (call : Bytes → Json → Option Bytes → Exec (Result Json))
      → ((name : Bytes) (args : Json) (pg_role : Option Bytes)
          → Returned db (call name args pg_role))
      → is_completion (lit sql) ≡ true
      → Treats db
          (call_job db false call (submit_call db false sql))
          is_call
          (run_call call)
          (λ job. submit_call db false sql (str_at "call_id" job))
          sql
          tell_call
  unfolding call_job with_str
  call_job-Treats sql call back known = record {
    treats = λ job. call_treated _ _ _;
    comes_back = λ job. back (str_at "sql_ident" job) (args_of job) (get_str (lit "pg_role") job);
    tells = λ job. told_call-submit db sql (str_at "call_id" job);
    known = known;
  }

  sql_job-Treats :
      (to_i64 : Bytes → Option ℕ)
      → Treats db
          (sql_job db false to_i64)
          is_sql_job
          (run_sql db)
          (λ job. submit_sql_result db false to_i64 (str_at "call_id" job))
          complete_sql
          (tell_sql to_i64)
  unfolding sql_job with_str is_completion same
  sql_job-Treats to_i64 = record {
    treats = λ job. sql_treated _ _ _ (λ x y z.
        run_and_submit (run_sandboxed_sql db false y z (get_str (lit "pg_role") job))
          (submit_sql_result db false to_i64 x));
    comes_back = λ job. (
      _,
      run_sandboxed_sql-Returns db false (str_at "agent_id" job) (str_at "sql" job)
          (get_str (lit "pg_role") job),
    );
    tells = λ job o. refl;
    known = refl;
  }

-- The five pumps, if the database takes each result.
pub pumps-PumpsAll :
    (db : Database) (to_i64 : Bytes → Option ℕ) (nanos : Json → Bytes) (s : Session)
    → TakesResults db
    → SqlPumped db to_i64 s
      × (FunctionBuildsPumped db nanos s × FunctionCallsPumped db s)
      × (ProcedureBuildsPumped db nanos s × ProcedureCallsPumped db s)
unfolding pump_sql pump_function_builds pump_function_calls pump_procedure_builds
    pump_procedure_calls is_completion same
pumps-PumpsAll db to_i64 nanos s d = (
  pump-PumpsAll d (sql_job-Treats db to_i64) (claim_sql_jobs db false sql_claim_limit) "calls" s,
  (
    pump-PumpsAll d
        (build_job-Treats db "function_id" complete_function_build (run_function_build db false)
          nanos (λ n name body. (_, run_function_build-Returns db false n name body)) refl)
        (claim_function_build_jobs db false sql_claim_limit) "builds" s,
    pump-PumpsAll d
        (call_job-Treats db complete_function_call (run_function_call db false)
          (λ name args role. (_, run_function_call-Returns db false name args role)) refl)
        (claim_function_call_jobs db false sql_claim_limit) "calls" s,
  ),
  (
    pump-PumpsAll d
        (build_job-Treats db "procedure_id" complete_procedure_build (run_procedure_build db false)
          nanos (λ n name body. (_, run_procedure_build-Returns db false n name body)) refl)
        (claim_procedure_build_jobs db false sql_claim_limit) "builds" s,
    pump-PumpsAll d
        (call_job-Treats db complete_procedure_call (run_procedure_call db false)
          (λ name args role. (_, run_procedure_call-Returns db false name args role)) refl)
        (claim_procedure_call_jobs db false sql_claim_limit) "calls" s,
  ),
)
