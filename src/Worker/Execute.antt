-- ===== src/Worker/Execute.antt =====
-- The executors: `run_sandboxed_sql`, `run_function_build`, `run_function_call`, `run_procedure_build` and
-- `run_procedure_call` of src/sandbox.rs, src/function_exec.rs and src/procedure_exec.rs.
use Prim.Native.String.{String}
pub mod Order
pub mod Guarded
pub mod Returns
pub mod Scripts
pub mod Leaks
use mathlib.Core.Option
use allgres.Base.{
  ℕ, Bool, true, false, not, Option, none, some, List, [], ◌∷◌, ◌++◌, if◌then◌else◌, value_or,
  keep_if,
}
use allgres.Bytes.{Bytes, lit}
use allgres.Json.{Json, null}
use allgres.Worker.Ident.{valid_sql_ident, valid_pg_role, dollar_quote}
use allgres.Worker.Session.{
  Statement, query, text_arg, json_arg, plain, transaction, Database, Session, Result, ok, err,
  Exec, ◌>>=◌, pure, spi, drop_privileges, run_all, run_in_subtransaction, set_timer,
}

abbrev sandbox : Bytes
sandbox = lit "sandbox"

-- `pg_role.filter(valid_pg_role).unwrap_or("sandbox")`
pub role_of : Option Bytes → Bytes
role_of pg_role = value_or sandbox (keep_if valid_pg_role pg_role)

abbrev pub set_role : Bytes → Statement
set_role role = plain (lit "SET LOCAL ROLE " ++ role)

abbrev pub set_path : Statement
set_path = plain (lit "SET LOCAL search_path = pg_temp")

abbrev pub set_read_only : Statement
set_read_only = plain (lit "SET LOCAL transaction_read_only = on")

-- The number as the source prints it.
abbrev pub set_timeout : String → Statement
set_timeout ms = plain (lit "SET LOCAL statement_timeout = '" ++ (lit ms ++ lit "ms'"))

abbrev pub set_agent : Bytes → Statement
set_agent agent_id =
    query (lit "SELECT set_config('allgres.agent_id', $1, true)") (text_arg agent_id ∷ [])

-- What the answer to the agent's statement comes to; no row counts as `missing`.
abbrev pub result_of : Result Json → Result (Option Json) → Result Json
result_of missing (ok none) = missing
result_of missing (ok (some v)) = ok v
result_of missing (err e) = err e

abbrev discard : Result Json → Result Json
discard (ok v) = ok null
discard (err e) = err e

abbrev invalid_ident : Result Json
invalid_ident = err (lit "invalid sql_ident")

abbrev pub sandbox_settings : Bytes → Bytes → List Statement
sandbox_settings agent_id role =
    set_role role ∷ set_path ∷ set_read_only ∷ set_timeout "5000" ∷ set_agent agent_id ∷ []

abbrev pub sandboxed : Bytes → Statement
sandboxed sql = query (lit "SELECT allgres_public.fn_run_sandboxed_sql($1)") (text_arg sql ∷ [])

-- The one setting of a build.
abbrev pub build_settings : List Statement
build_settings = set_role (lit "allgres_function_admin") ∷ []

abbrev pub call_settings : String → Bytes → List Statement
call_settings ms role = set_role role ∷ set_path ∷ set_timeout ms ∷ []

abbrev pub function_call : Bytes → Json → Statement
function_call sql_ident args =
    query (lit "SELECT allgres_functions." ++ (sql_ident ++ lit "($1::jsonb)")) (json_arg args ∷ [])

abbrev pub procedure_call : Bytes → Json → Statement
procedure_call sql_ident args =
    query (lit "CALL allgres_functions." ++ (sql_ident ++ lit "($1::jsonb, '{}'::jsonb)"))
      (json_arg args ∷ [])

-- A body is always quoted; the clock in hex digits is `nanos`.
pub quoted : Bytes → Bytes → Bytes
quoted nanos body = value_or [] (Option.map (λ q. q.1) (dollar_quote nanos body))

abbrev pub create_function : Bytes → Bytes → Bytes → Statement
create_function nanos sql_ident body = plain (
    lit "CREATE OR REPLACE FUNCTION allgres_functions."
    ++ (sql_ident
        ++ (lit "(p_args jsonb) RETURNS jsonb LANGUAGE plpgsql SECURITY INVOKER AS "
            ++ (quoted nanos body ++ lit ";"))))

abbrev pub create_procedure : Bytes → Bytes → Bytes → Statement
create_procedure nanos sql_ident body = plain (
    lit "CREATE OR REPLACE PROCEDURE allgres_functions."
    ++ (sql_ident
        ++ (lit "(p_args jsonb, INOUT p_result jsonb) LANGUAGE plpgsql SECURITY INVOKER AS "
            ++ (quoted nanos body ++ lit ";"))))

module _ (db : Database) (disabled : Bool) where
  -- Privileges are dropped and the settings made, one after the other, as long as none fails.
  pub drop_and_set : List Statement → Exec Bool
  drop_and_set settings =
      drop_privileges db disabled >>= (λ b. if b then run_all db settings else pure false)

  -- The agent's statement, under the timer.
  pub run_timed : ℕ → Statement → Result Json → Exec (Result Json)
  run_timed ms st missing =
      set_timer (some ms)
      >>= (λ _. spi db st)
      >>= (λ r. set_timer none >>= (λ _. pure (result_of missing r)))

  -- The closure that each of the executors runs in a subtransaction.
  pub run_dropped : List Statement → String → ℕ → Statement → Result Json → Exec (Result Json)
  run_dropped settings refusal ms st missing =
      drop_and_set settings
      >>= (λ dropped. if dropped then run_timed ms st missing else pure (err (lit refusal)))

  -- The closure of the two builds.
  pub run_ddl : Statement → Exec (Result Json)
  run_ddl ddl = drop_and_set build_settings >>= (λ dropped.
      if dropped
      then spi db ddl >>= (λ r. pure (discard (result_of (ok null) r)))
      else pure (err (lit "allgres_function_admin role unavailable")))

  pub run_sandboxed_sql : Bytes → Bytes → Option Bytes → Exec (Result Json)
  run_sandboxed_sql agent_id sql pg_role = transaction db (
      run_in_subtransaction (
        run_dropped (sandbox_settings agent_id (role_of pg_role)) "sandbox role unavailable" 5000
          (sandboxed sql) (err (lit "sandboxed execution returned nothing"))))

  pub run_function_call : Bytes → Json → Option Bytes → Exec (Result Json)
  run_function_call sql_ident args pg_role =
      if not (valid_sql_ident sql_ident (lit "fn_"))
      then pure invalid_ident
      else transaction db (
          run_in_subtransaction (
            run_dropped (call_settings "5000" (role_of pg_role)) "function role unavailable" 5000
              (function_call sql_ident args) (ok null)))

  pub run_procedure_call : Bytes → Json → Option Bytes → Exec (Result Json)
  run_procedure_call sql_ident args pg_role =
      if not (valid_sql_ident sql_ident (lit "proc_"))
      then pure invalid_ident
      else transaction db (
          run_in_subtransaction (
            run_dropped (call_settings "60000" (role_of pg_role)) "procedure role unavailable" 60000
              (procedure_call sql_ident args) (ok null)))

  pub run_function_build : Bytes → Bytes → Bytes → Exec (Result Json)
  run_function_build nanos sql_ident body =
      if not (valid_sql_ident sql_ident (lit "fn_"))
      then pure invalid_ident
      else transaction db (run_in_subtransaction (run_ddl (create_function nanos sql_ident body)))

  pub run_procedure_build : Bytes → Bytes → Bytes → Exec (Result Json)
  run_procedure_build nanos sql_ident body =
      if not (valid_sql_ident sql_ident (lit "proc_"))
      then pure invalid_ident
      else transaction db (run_in_subtransaction (run_ddl (create_procedure nanos sql_ident body)))
