-- ===== src/Worker/Execute/Scripts.antt =====
-- What each executor sends, and under which role.
use allgres.Base.{
  ◌+◌, Bool, true, false, Option, none, some, List, [], ◌∷◌, ◌≡◌, ◌⊎◌, inl, inr, refl, sym, ◌∙◌,
  subst, Bool-cases,
}
use allgres.Bytes.{Bytes, lit}
use allgres.Json.{Json, null}
use allgres.Worker.Ident.{valid_pg_role, valid_sql_ident}
use allgres.Worker.Session.{
  Statement, begin, send, transaction, end_transaction, end_transaction-Stays, Database, Session,
  Result, ok, err, Exec, run_in_subtransaction,
}
use allgres.Worker.Execute.{
  role_of, sandbox_settings, sandboxed, run_sandboxed_sql, call_settings, function_call,
  procedure_call, run_function_call, run_procedure_call,
}
use allgres.Worker.Execute.Order.{
  Permits, Follows, settings_then, whatever, dropping, run_dropped-Follows,
  run_in_subtransaction-log,
}

-- The role that an agent's statement runs under is the shared one, or has the form of an agent's.
pub role_of-cases :
    (pg_role : Option Bytes)
    → (role_of pg_role ≡ lit "sandbox") ⊎ (valid_pg_role (role_of pg_role) ≡ true)
unfolding role_of
role_of-cases none = inl refl
role_of-cases (some r) = elim (Bool-cases (valid_pg_role r)) [
  | inl e ↦ inr (rw e e)
  | inr e ↦ inl (rw e refl)
]

in_subtransaction :
    (db : Database) (f : Exec (Result Json)) (script : List (Statement × Permits)) (s : Session)
    → Follows db script s.log (f (record s { depth = s.depth + 1 })).0.log
    → Follows db script s.log (end_transaction db (run_in_subtransaction f s)).0.log
in_subtransaction db f script s h =
    subst (Follows db script s.log)
      (sym (
        (end_transaction-Stays db (run_in_subtransaction f s)).log ∙ run_in_subtransaction-log f s))
      h

-- What is sent: nothing for an invalid name, else a script that ends in the agent's statement.
abbrev pub Confined :
    Database → Bool → Bool → List Statement → Statement → List Statement → List Statement → Type 0
Confined db disabled false settings st log log' = log' ≡ log
Confined db disabled true settings st log log' =
    Follows db (dropping disabled (settings_then settings ((st, whatever) ∷ []))) (begin ∷ log) log'

-- A sandboxed statement is sent only behind every setting that confines it: what is sent is, in
-- order, the drop of privileges (unless that is switched off), the role, the search path, the
-- read-only mode, the timeout, the agent's name, and last the statement, and each of them only if
-- the one before it succeeded.
pub run_sandboxed_sql-Follows :
    (db : Database) (disabled : Bool) (agent_id sql : Bytes) (pg_role : Option Bytes) (s : Session)
    → Follows db
        (dropping disabled (
          settings_then
            (sandbox_settings agent_id (role_of pg_role))
            ((sandboxed sql, whatever) ∷ [])))
        (begin ∷ s.log)
        (run_sandboxed_sql db disabled agent_id sql pg_role s).0.log
unfolding run_sandboxed_sql transaction
run_sandboxed_sql-Follows db disabled agent_id sql pg_role s =
    in_subtransaction db _ _ (send begin s) (
      run_dropped-Follows db (sandbox_settings agent_id (role_of pg_role))
        "sandbox role unavailable" 5000 (sandboxed sql)
        (err (lit "sandboxed execution returned nothing")) disabled
        (record s { log = begin ∷ s.log; depth = s.depth + 1 }))

-- A function or a procedure whose name has not the form that the database gives is not called at
-- all; the call of another is sent only behind the drop of privileges (unless that is switched
-- off), the role, the search path and the timeout, in order, each only if the one before it
-- succeeded.
pub call-Follows :
    (db : Database) (disabled : Bool) (sql_ident : Bytes) (args : Json) (pg_role : Option Bytes)
    (s : Session)
    → Confined db disabled
        (valid_sql_ident sql_ident (lit "fn_"))
        (call_settings "5000" (role_of pg_role))
        (function_call sql_ident args)
        s.log
        (run_function_call db disabled sql_ident args pg_role s).0.log
      × Confined db disabled
          (valid_sql_ident sql_ident (lit "proc_"))
          (call_settings "60000" (role_of pg_role))
          (procedure_call sql_ident args)
          s.log
          (run_procedure_call db disabled sql_ident args pg_role s).0.log
unfolding run_function_call run_procedure_call transaction
call-Follows db disabled sql_ident args pg_role s = (function_part, procedure_part)
  where
    function_part :
        Confined db disabled
          (valid_sql_ident sql_ident (lit "fn_"))
          (call_settings "5000" (role_of pg_role))
          (function_call sql_ident args)
          s.log
          (run_function_call db disabled sql_ident args pg_role s).0.log
    function_part = elim (Bool-cases (valid_sql_ident sql_ident (lit "fn_"))) [
      | inl e ↦
          rw (e, run_function_call)
            (in_subtransaction db _ _ (send begin s) (
              run_dropped-Follows db (call_settings "5000" (role_of pg_role))
                "function role unavailable" 5000 (function_call sql_ident args) (ok null) disabled
                (record s { log = begin ∷ s.log; depth = s.depth + 1 })))
      | inr e ↦ rw (e, run_function_call) refl
    ]

    procedure_part :
        Confined db disabled
          (valid_sql_ident sql_ident (lit "proc_"))
          (call_settings "60000" (role_of pg_role))
          (procedure_call sql_ident args)
          s.log
          (run_procedure_call db disabled sql_ident args pg_role s).0.log
    procedure_part = elim (Bool-cases (valid_sql_ident sql_ident (lit "proc_"))) [
      | inl e ↦
          rw (e, run_procedure_call)
            (in_subtransaction db _ _ (send begin s) (
              run_dropped-Follows db (call_settings "60000" (role_of pg_role))
                "procedure role unavailable" 60000 (procedure_call sql_ident args) (ok null)
                disabled (record s { log = begin ∷ s.log; depth = s.depth + 1 })))
      | inr e ↦ rw (e, run_procedure_call) refl
    ]
