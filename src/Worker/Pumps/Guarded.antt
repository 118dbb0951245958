-- ===== src/Worker/Pumps/Guarded.antt =====
-- The pumps keep to the policy.
use Prim.Native.String.{String}
use allgres.Base.{◌&&◌, ℕ, Bool, true, false, Option, none, some, ◌≡◌, refl}
use allgres.Bytes.{Bytes, lit}
use allgres.Bytes.Compare.{same}
use allgres.Json.{Json, Items, nil, cons}
use allgres.Worker.Ident.{valid_uuid}
use allgres.Worker.Session.{Database, Result, ok, err, Exec}
use allgres.Worker.Claims.{submit_build, submit_call}
use allgres.Worker.Policy.{is_own}
use allgres.Worker.Guard.{Keeps, bind_Triple, pure-Keeps}
use allgres.Worker.Guard.Queues.{claim-Keeps, submit_with-Keeps}
use allgres.Worker.Execute.Guarded.{
  run_sandboxed_sql-Keeps, run_function_call-Keeps, run_procedure_call-Keeps,
  run_function_build-Keeps, run_procedure_build-Keeps,
}
use allgres.Worker.Pumps.{
  run_jobs, pump, run_and_submit, with_str, with_some, only_if, sql_job, pump_sql, build_job,
  call_job, pump_function_builds, pump_function_calls, pump_procedure_builds, pump_procedure_calls,
}

module _ (db : Database) where
  run_jobs-Keeps :
      (one : Json → Exec Bool) (jobs : Items)
      → ((job : Json) → Keeps db (one job))
      → Keeps db (run_jobs one jobs)
  unfolding run_jobs
  run_jobs-Keeps one nil h = pure-Keeps db 0
  run_jobs-Keeps one (cons job jobs) h =
      bind_Triple db (h job)
        (λ ran. bind_Triple db (run_jobs-Keeps one jobs h) (λ n. pure-Keeps db _))

  pump-Keeps :
      (claim : Exec Json) (key : String) (one : Json → Exec Bool)
      → Keeps db claim
      → ((job : Json) → Keeps db (one job))
      → Keeps db (pump claim key one)
  unfolding pump
  pump-Keeps claim key one h g = bind_Triple db h (λ claimed. run_jobs-Keeps one _ g)

  run_and_submit-Keeps :
      (run : Exec (Result Json)) (submit : Result Json → Exec Unit)
      → Keeps db run
      → ((r : Result Json) → Keeps db (submit r))
      → Keeps db (run_and_submit run submit)
  unfolding run_and_submit
  run_and_submit-Keeps run submit h g =
      bind_Triple db h (λ r. bind_Triple db (g r) (λ _. pure-Keeps db true))

  submit_build-Keeps :
      (sql : String)
      → is_own (lit sql) ≡ true
      → (id : Bytes) (r : Result Json) → Keeps db (submit_build db false sql id r)
  submit_build-Keeps sql x id (ok v) = submit_with-Keeps db sql _ x
  submit_build-Keeps sql x id (err e) = submit_with-Keeps db sql _ x

  submit_call-Keeps :
      (sql : String)
      → is_own (lit sql) ≡ true
      → (id : Bytes) (r : Result Json) → Keeps db (submit_call db false sql id r)
  submit_call-Keeps sql x id (ok v) = submit_with-Keeps db sql _ x
  submit_call-Keeps sql x id (err e) = submit_with-Keeps db sql _ x

  with_some-Keeps :
      {A : Type 0} (o : Option A) (k : A → Exec Bool)
      → ((a : A) → Keeps db (k a))
      → Keeps db (with_some o k)
  unfolding with_some
  with_some-Keeps none k h = pure-Keeps db false
  with_some-Keeps (some a) k h = h a

  with_str-Keeps :
      (key : String) (job : Json) (k : Bytes → Exec Bool)
      → ((a : Bytes) → Keeps db (k a))
      → Keeps db (with_str key job k)
  unfolding with_str
  with_str-Keeps key job k h = with_some-Keeps _ k h

  only_if-Keeps : (b : Bool) {m : Exec Bool} → Keeps db m → Keeps db (only_if b m)
  unfolding only_if
  only_if-Keeps true h = h
  only_if-Keeps false h = pure-Keeps db false

  build_job-Keeps :
      (id_key : String) (run : Bytes → Bytes → Exec (Result Json))
      (submit : Bytes → Result Json → Exec Unit) (job : Json)
      → ((sql_ident body : Bytes) → Keeps db (run sql_ident body))
      → ((id : Bytes) (r : Result Json) → Keeps db (submit id r))
      → Keeps db (build_job db false id_key run submit job)
  unfolding build_job
  build_job-Keeps id_key run submit job h g = with_str-Keeps _ _ _ (λ id.
      with_str-Keeps _ _ _ (λ sql_ident. with_str-Keeps _ _ _ (λ body.
        only_if-Keeps (valid_uuid id)
          (run_and_submit-Keeps (run sql_ident body) (submit id) (h sql_ident body) (g id)))))

  call_job-Keeps :
      (run : Bytes → Json → Option Bytes → Exec (Result Json))
      (submit : Bytes → Result Json → Exec Unit) (job : Json)
      → ((sql_ident : Bytes) (args : Json) (pg_role : Option Bytes)
          → Keeps db (run sql_ident args pg_role))
      → ((id : Bytes) (r : Result Json) → Keeps db (submit id r))
      → Keeps db (call_job db false run submit job)
  unfolding call_job
  call_job-Keeps run submit job h g = with_str-Keeps _ _ _ (λ id. with_str-Keeps _ _ _ (λ sql_ident.
      only_if-Keeps (valid_uuid id)
        (run_and_submit-Keeps (run sql_ident _ _) (submit id) (h sql_ident _ _) (g id))))

  sql_job-Keeps : (to_i64 : Bytes → Option ℕ) (job : Json) → Keeps db (sql_job db false to_i64 job)
  unfolding sql_job is_own same
  sql_job-Keeps to_i64 job = with_str-Keeps _ _ _ (λ call_id. with_str-Keeps _ _ _ (λ agent_id.
      with_str-Keeps _ _ _ (λ sql. only_if-Keeps (valid_uuid call_id && valid_uuid agent_id) (
        run_and_submit-Keeps _ _ (run_sandboxed_sql-Keeps db agent_id sql _)
          (λ r. submit_with-Keeps db _ _ refl)))))

  pub pump_sql-Keeps : (to_i64 : Bytes → Option ℕ) → Keeps db (pump_sql db false to_i64)
  unfolding pump_sql is_own same
  pump_sql-Keeps to_i64 = pump-Keeps _ _ _ (claim-Keeps db _ _ _ refl) (sql_job-Keeps to_i64)

  pub pump_function_builds-Keeps :
      (nanos : Json → Bytes) → Keeps db (pump_function_builds db false nanos)
  unfolding pump_function_builds is_own same
  pump_function_builds-Keeps nanos = pump-Keeps _ _ _ (claim-Keeps db _ _ _ refl) (λ job.
      build_job-Keeps _ _ _ job (run_function_build-Keeps db (nanos job))
        (submit_build-Keeps _ refl))

  pub pump_procedure_builds-Keeps :
      (nanos : Json → Bytes) → Keeps db (pump_procedure_builds db false nanos)
  unfolding pump_procedure_builds is_own same
  pump_procedure_builds-Keeps nanos = pump-Keeps _ _ _ (claim-Keeps db _ _ _ refl) (λ job.
      build_job-Keeps _ _ _ job (run_procedure_build-Keeps db (nanos job))
        (submit_build-Keeps _ refl))

  pub pump_function_calls-Keeps : Keeps db (pump_function_calls db false)
  unfolding pump_function_calls is_own same
  pump_function_calls-Keeps =
      pump-Keeps _ _ _ (claim-Keeps db _ _ _ refl)
        (λ job. call_job-Keeps _ _ job (run_function_call-Keeps db) (submit_call-Keeps _ refl))

  pub pump_procedure_calls-Keeps : Keeps db (pump_procedure_calls db false)
  unfolding pump_procedure_calls is_own same
  pump_procedure_calls-Keeps =
      pump-Keeps _ _ _ (claim-Keeps db _ _ _ refl)
        (λ job. call_job-Keeps _ _ job (run_procedure_call-Keeps db) (submit_call-Keeps _ refl))
