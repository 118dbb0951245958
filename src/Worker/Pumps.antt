-- ===== src/Worker/Pumps.antt =====
-- `pump_sql`, `pump_function_builds`, `pump_function_calls`, `pump_procedure_builds` and
-- `pump_procedure_calls` of src/sandbox.rs, src/function_exec.rs and src/procedure_exec.rs: jobs are
-- claimed, run one after the other, and their outcomes handed back.
pub mod Guarded
pub mod Completed
pub mod Jobs
pub mod All
use Prim.Native.String.{String}
use allgres.Base.{ℕ, suc, Bool, true, false, ◌&&◌, Option, none, some, if◌then◌else◌, value_or}
use allgres.Bytes.{Bytes, lit}
use allgres.Json.{Json, obj, arr, Items, nil, cons, end, get, get_str}
use allgres.Worker.Ident.{valid_uuid}
use allgres.Worker.Session.{Database, Result, Exec, ◌>>=◌, pure}
use allgres.Worker.Execute.{
  run_sandboxed_sql, run_function_call, run_procedure_call, run_function_build, run_procedure_build,
}
use allgres.Worker.Claims.{
  claim_sql_jobs, claim_function_build_jobs, claim_function_call_jobs, claim_procedure_build_jobs,
  claim_procedure_call_jobs, submit_sql_result, submit_function_build_result,
  submit_function_call_result, submit_procedure_build_result, submit_procedure_call_result,
}

abbrev pub sql_claim_limit : ℕ
sql_claim_limit = 1

-- `claimed.get(key).and_then(Value::as_array)`, empty where there is none.
abbrev pub jobs_in : String → Json → Items
jobs_in key claimed = elim (get (lit key) claimed) [ some (arr jobs) ↦ jobs | _ ↦ nil ]

-- Each job in turn; the number is of those that were run and not skipped.
unfoldable pub run_jobs : (Json → Exec Bool) → Items → Exec ℕ
run_jobs one nil = pure 0
run_jobs one (cons job jobs) =
    one job >>= (λ ran. run_jobs one jobs >>= (λ n. pure (if ran then suc n else n)))

unfoldable pub pump : Exec Json → String → (Json → Exec Bool) → Exec ℕ
pump claim key one = claim >>= (λ claimed. run_jobs one (jobs_in key claimed))

-- The outcome is handed back, and the job counts as run.
pub run_and_submit : Exec (Result Json) → (Result Json → Exec Unit) → Exec Bool
run_and_submit run submit = run >>= (λ outcome. submit outcome >>= (λ _. pure true))

abbrev pub skip : Exec Bool
skip = pure false

abbrev pub args_of : Json → Json
args_of call = value_or (obj end) (get (lit "args") call)

-- `let Some(..) = .. else { continue }`, and `if !.. { continue }`
unfoldable pub with_some {ℓ} : {A : Type ℓ} → Option A → (A → Exec Bool) → Exec Bool
with_some none k = skip
with_some (some a) k = k a

unfoldable pub only_if : Bool → Exec Bool → Exec Bool
only_if b m = if b then m else skip

-- A string of the job.
unfoldable pub with_str : String → Json → (Bytes → Exec Bool) → Exec Bool
with_str key job = with_some (get_str (lit key) job)

module _ (db : Database) (disabled : Bool) (to_i64 : Bytes → Option ℕ) where
  unfoldable pub sql_job : Json → Exec Bool
  sql_job call = with_str "call_id" call (λ call_id. with_str "agent_id" call (λ agent_id.
      with_str "sql" call (λ sql. only_if (valid_uuid call_id && valid_uuid agent_id) (
        run_and_submit (run_sandboxed_sql db disabled agent_id sql (get_str (lit "pg_role") call))
          (submit_sql_result db disabled to_i64 call_id)))))

  unfoldable pub pump_sql : Exec ℕ
  pump_sql = pump (claim_sql_jobs db disabled sql_claim_limit) "calls" sql_job

module _ (db : Database) (disabled : Bool) where
  unfoldable pub build_job :
      String
      → (Bytes → Bytes → Exec (Result Json))
      → (Bytes → Result Json → Exec Unit)
      → Json
      → Exec Bool
  build_job id_key run submit job = with_str id_key job (λ id.
      with_str "sql_ident" job (λ sql_ident.
        with_str "body" job
          (λ body. only_if (valid_uuid id) (run_and_submit (run sql_ident body) (submit id)))))

  unfoldable pub call_job :
      (Bytes → Json → Option Bytes → Exec (Result Json))
      → (Bytes → Result Json → Exec Unit)
      → Json
      → Exec Bool
  call_job run submit job = with_str "call_id" job (λ id. with_str "sql_ident" job (λ sql_ident.
      only_if (valid_uuid id)
        (run_and_submit (run sql_ident (args_of job) (get_str (lit "pg_role") job)) (submit id))))

  -- `nanos` is the clock when a job is built.
  unfoldable pub pump_function_builds : (Json → Bytes) → Exec ℕ
  pump_function_builds nanos =
      pump (claim_function_build_jobs db disabled sql_claim_limit) "builds" (λ job.
        build_job "function_id" (run_function_build db disabled (nanos job))
          (submit_function_build_result db disabled) job)

  unfoldable pub pump_function_calls : Exec ℕ
  pump_function_calls =
      pump (claim_function_call_jobs db disabled sql_claim_limit) "calls"
        (call_job (run_function_call db disabled) (submit_function_call_result db disabled))

  unfoldable pub pump_procedure_builds : (Json → Bytes) → Exec ℕ
  pump_procedure_builds nanos =
      pump (claim_procedure_build_jobs db disabled sql_claim_limit) "builds" (λ job.
        build_job "procedure_id" (run_procedure_build db disabled (nanos job))
          (submit_procedure_build_result db disabled) job)

  unfoldable pub pump_procedure_calls : Exec ℕ
  pump_procedure_calls =
      pump (claim_procedure_call_jobs db disabled sql_claim_limit) "calls"
        (call_job (run_procedure_call db disabled) (submit_procedure_call_result db disabled))
