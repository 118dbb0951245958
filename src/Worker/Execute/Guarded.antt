-- ===== src/Worker/Execute/Guarded.antt =====
-- The executors keep to the policy: what an agent has written runs under its settings only.
use Prim.Native.String.{String}
use allgres.Base.{ℕ, Bool, true, false, not, Option, none, some, List, [], ◌≡◌, refl, if◌then◌else◌}
use allgres.Bytes.{Bytes}
use allgres.Json.{Json}
use allgres.Worker.Ident.Quote.{dollar_quote-closed}
use allgres.Worker.Session.{
  Statement, Database, Result, Exec, pure, run_all, set_timer, run_in_subtransaction, transaction,
}
use allgres.Worker.Execute.{
  role_of, sandbox_settings, sandboxed, call_settings, function_call, procedure_call,
  build_settings, quoted, create_function, create_procedure, result_of, drop_and_set, run_timed,
  run_dropped, run_ddl, run_sandboxed_sql, run_function_call, run_procedure_call,
  run_function_build, run_procedure_build,
}
use allgres.Worker.Execute.Scripts.{role_of-cases}
use allgres.Worker.Policy.{
  agent_role, builder_role, empty_path, read_only, short_timeout, long_timeout, agent_name,
  IsQuoted, Confined, Allowed, unchanged, runs_sql, calls_function, calls_procedure,
  builds_function, builds_procedure,
}
use allgres.Worker.Guard.Queues.{if_confined}
use allgres.Worker.Guard.{
  Begun, Anything, Triple, Keeps, IfConfined, AllSettings, onto, bind_Triple, pure_Triple,
  pure-Keeps,
}
use allgres.Worker.Guard.Steps.{
  last_Triple, drop_privileges_Triple, run_all_Triple, run_in_subtransaction_Triple,
  transaction_Triple,
}

quoted-IsQuoted : (nanos body : Bytes) → IsQuoted (quoted nanos body)
unfolding quoted
quoted-IsQuoted nanos body =
    let (tag, made, free) = dollar_quote-closed nanos body in
    record { tag = tag; body = body; between = rw made refl; closed = free }

module _ (db : Database) where
  drop_and_set_Triple :
      (settings : List Statement)
      → AllSettings settings
      → Triple db Begun (drop_and_set db false settings) (IfConfined db (onto [] settings))
  unfolding drop_and_set
  drop_and_set_Triple settings h = bind_Triple db (drop_privileges_Triple db) set
    where
      set :
          (b : Bool)
          → Triple db
              (IfConfined db [] b)
              (if b then run_all db settings else pure false)
              (IfConfined db (onto [] settings))
      set true = run_all_Triple db [] settings h
      set false = pure_Triple db (λ log p. p)

  -- What may be sent behind these settings.
  abbrev MayRun : List Statement → Statement → Type 0
  MayRun settings st =
      (log : List Statement) → Confined db (onto [] settings) log → Allowed db log st

  set_timer-Triple :
      (P : List Statement → Type 0) (t : Option ℕ) → Triple db P (set_timer t) (λ _. P)
  set_timer-Triple P t = record { leaves = λ s p. (unchanged, p) }

  run_timed_Triple :
      (settings : List Statement) (ms : ℕ) (st : Statement) (missing : Result Json)
      → MayRun settings st
      → Triple db
          (Confined db (onto [] settings))
          (run_timed db false ms st missing)
          (λ _. Anything)
  unfolding run_timed
  run_timed_Triple settings ms st missing may =
      bind_Triple db
        (bind_Triple db (set_timer-Triple (Confined db (onto [] settings)) (some ms))
          (λ _. last_Triple db st may))
        (λ r.
          bind_Triple db (set_timer-Triple Anything none)
            (λ _. pure-Keeps db (result_of missing r)))

  run_dropped_Triple :
      (settings : List Statement) (refusal : String) (ms : ℕ) (st : Statement)
      (missing : Result Json)
      → AllSettings settings
      → MayRun settings st
      → Triple db Begun (run_dropped db false settings refusal ms st missing) (λ _. Anything)
  unfolding run_dropped
  run_dropped_Triple settings refusal ms st missing h may =
      bind_Triple db (drop_and_set_Triple settings h)
        (λ b. if_confined db _ b _ (run_timed_Triple settings ms st missing may))

  run_ddl_Triple :
      (st : Statement)
      → MayRun build_settings st
      → Triple db Begun (run_ddl db false st) (λ _. Anything)
  unfolding run_ddl
  run_ddl_Triple st may =
      bind_Triple db (drop_and_set_Triple build_settings (builder_role, tt))
        (λ b. if_confined db _ b _ (bind_Triple db (last_Triple db st may) (λ r. pure-Keeps db _)))

  in_transaction :
      {m : Exec (Result Json)}
      → Triple db Begun m (λ _. Anything)
      → Keeps db (transaction db (run_in_subtransaction m))
  in_transaction h = transaction_Triple db (run_in_subtransaction_Triple db h)

  unless_invalid :
      {m : Exec (Result Json)} (valid : Bool) (refused : Result Json)
      → (valid ≡ true → Keeps db m)
      → Keeps db (if not valid then pure refused else m)
  unless_invalid true refused h = h refl
  unless_invalid false refused h = pure-Keeps db refused

  pub run_sandboxed_sql-Keeps :
      (agent_id sql : Bytes) (pg_role : Option Bytes)
      → Keeps db (run_sandboxed_sql db false agent_id sql pg_role)
  unfolding run_sandboxed_sql onto
  run_sandboxed_sql-Keeps agent_id sql pg_role =
      let role = role_of-cases pg_role in
      in_transaction (
        run_dropped_Triple (sandbox_settings agent_id (role_of pg_role)) _ _ (sandboxed sql) _
          (agent_role _ role, (empty_path, (read_only, (short_timeout, (agent_name _, tt)))))
          (λ log c. runs_sql agent_id (role_of pg_role) sql role c))

  pub run_function_call-Keeps :
      (sql_ident : Bytes) (args : Json) (pg_role : Option Bytes)
      → Keeps db (run_function_call db false sql_ident args pg_role)
  unfolding run_function_call onto
  run_function_call-Keeps sql_ident args pg_role =
      let role = role_of-cases pg_role in
      unless_invalid _ _ (λ valid. in_transaction (
        run_dropped_Triple (call_settings "5000" (role_of pg_role)) _ _
          (function_call sql_ident args) _ (agent_role _ role, (empty_path, (short_timeout, tt)))
          (λ log c. calls_function sql_ident (role_of pg_role) args valid role c)))

  pub run_procedure_call-Keeps :
      (sql_ident : Bytes) (args : Json) (pg_role : Option Bytes)
      → Keeps db (run_procedure_call db false sql_ident args pg_role)
  unfolding run_procedure_call onto
  run_procedure_call-Keeps sql_ident args pg_role =
      let role = role_of-cases pg_role in
      unless_invalid _ _ (λ valid. in_transaction (
        run_dropped_Triple (call_settings "60000" (role_of pg_role)) _ _
          (procedure_call sql_ident args) _ (agent_role _ role, (empty_path, (long_timeout, tt)))
          (λ log c. calls_procedure sql_ident (role_of pg_role) args valid role c)))

  pub run_function_build-Keeps :
      (nanos sql_ident body : Bytes) → Keeps db (run_function_build db false nanos sql_ident body)
  unfolding run_function_build onto
  run_function_build-Keeps nanos sql_ident body = unless_invalid _ _ (λ valid. in_transaction (
      run_ddl_Triple (create_function nanos sql_ident body)
        (λ log c. builds_function sql_ident _ valid (quoted-IsQuoted nanos body) c)))

  pub run_procedure_build-Keeps :
      (nanos sql_ident body : Bytes) → Keeps db (run_procedure_build db false nanos sql_ident body)
  unfolding run_procedure_build onto
  run_procedure_build-Keeps nanos sql_ident body = unless_invalid _ _ (λ valid. in_transaction (
      run_ddl_Triple (create_procedure nanos sql_ident body)
        (λ log c. builds_procedure sql_ident _ valid (quoted-IsQuoted nanos body) c)))
