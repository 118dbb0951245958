-- ===== src/Worker/Execute/Returns.antt =====
-- An ERROR of an agent's statement ends at its subtransaction, one of the commit does not.
use mathlib.Core.Bool.{true≢false}
use allgres.Base.{
  ℕ, zero, suc, ◌+◌, ◌-◌, Bool, true, false, not, Option, List, ◌∷◌, ◌≡◌, ◌⊎◌, inl, inr, refl, sym,
  ap, ◌∙◌, if◌then◌else◌,
}
use allgres.Bytes.{Bytes, lit}
use allgres.Json.{Json, null}
use allgres.Worker.Session.{
  Statement, begin, commit, Fault, raise, Answer, value, nothing, failed, raised, concluded,
  committed, end_transaction, is_raised, Database, Session, Outcome, returns, unwinds, Result, ok,
  err, Exec, pure, end_subtransaction, run_in_subtransaction, transaction,
}
use allgres.Worker.Ident.{valid_sql_ident}
use allgres.Worker.Execute.{
  role_of, sandbox_settings, sandboxed, call_settings, function_call, procedure_call,
  create_function, create_procedure, run_dropped, run_ddl, invalid_ident, run_sandboxed_sql,
  run_function_call, run_procedure_call, run_function_build, run_procedure_build,
}

-- What is told of a closure: what it returns, or the message of the ERROR that unwinds it.
abbrev reported : Outcome (Result Json) → Result Json
reported (returns r) = r
reported (unwinds e) = err e

-- The closure is run in a subtransaction of a block that has just begun.
abbrev told_of : Exec (Result Json) → Session → Result Json
told_of f s = reported (f (record s { log = begin ∷ s.log; depth = s.depth + 1 })).1

-- The code is unwound by an ERROR of the commit, raised where no subtransaction is open.
abbrev Uncommitted : Database → Session × Outcome (Result Json) → Type 0
Uncommitted db o =
    (s : Session) × ((e : Fault) × ((s.depth ≡ 0)
        × ((db (commit ∷ s.log) ≡ raised e) × (o ≡ raise e s))))

-- The code comes back with the result, unless the commit raises an ERROR.
abbrev Ended : Database → Result Json → Session × Outcome (Result Json) → Type 0
Ended db r o = ((s : Session) × (o ≡ (s, returns r))) ⊎ Uncommitted db o

-- So it is whatever the session is.
pub record Returns (db : Database) (m : Exec (Result Json)) (told : Session → Result Json)
    : Type 0 where
  pub returned : (s : Session) → Ended db (told s) (m s)

end_transaction-Ended :
    (db : Database) (s : Session) (r : Result Json) → Ended db r (end_transaction db (s, returns r))
unfolding end_transaction
end_transaction-Ended db s r = by_depth s.depth refl
  where
    by_answer : (a : Answer) → s.depth ≡ 0 → db (commit ∷ s.log) ≡ a → Ended db r (concluded s r a)
    by_answer (raised e) d h = inr (s, (e, (d, (h, refl))))
    by_answer (value v) d h = inl (s, refl)
    by_answer nothing d h = inl (s, refl)
    by_answer (failed e) d h = inl (s, refl)

    by_depth : (n : ℕ) → s.depth ≡ n → Ended db r (committed db n s r)
    by_depth zero d = by_answer (db (commit ∷ s.log)) d refl
    by_depth (suc n) d = inl (s, refl)

end_Ended :
    (db : Database) (o : Session × Outcome (Result Json))
    → Ended db (reported o.1) (end_transaction db (end_subtransaction o))
unfolding end_subtransaction
end_Ended db (s, returns (ok v)) =
    end_transaction-Ended db (record s { depth = s.depth - 1 }) (ok v)
end_Ended db (s, returns (err e)) = end_transaction-Ended db s (err e)
end_Ended db (s, unwinds e) = end_transaction-Ended db (record s { depth = s.depth - 1 }) (err e)

in_transaction :
    (db : Database) (m : Exec (Result Json))
    → Returns db (transaction db (run_in_subtransaction m)) (told_of m)
unfolding transaction run_in_subtransaction
in_transaction db m = record {
  returned = λ s. end_Ended db (m (record s { log = begin ∷ s.log; depth = s.depth + 1 }));
}

-- An invalid name is refused.
abbrev unless_invalid : Bool → Exec (Result Json) → Session → Result Json
unless_invalid valid m s = if valid then told_of m s else invalid_ident

call_Returns :
    (db : Database) (valid : Bool) (m : Exec (Result Json))
    → Returns db
        (if not valid then pure invalid_ident else transaction db (run_in_subtransaction m))
        (unless_invalid valid m)
call_Returns db true m = in_transaction db m
call_Returns db false m = record { returned = λ s. inl (s, refl) }

-- Where no commit raises an ERROR, there is always a result.
abbrev pub Returned : Database → Exec (Result Json) → Type 0
Returned db m = (told : Session → Result Json) × Returns db m told

pub Returned-returns :
    (db : Database) {m : Exec (Result Json)}
    → ((log : List Statement) → is_raised (db (commit ∷ log)) ≡ false)
    → Returned db m
    → (s : Session) → (s' : Session) × ((r : Result Json) × (m s ≡ (s', returns r)))
Returned-returns db h (told, t) s = elim (t.returned s) [
  | inl (s', o) ↦ (s', (told s, o))
  | inr (s', (e, (d, (at, o)))) ↦ absurd (true≢false (sym (ap is_raised at) ∙ h s'.log))
]

module _ (db : Database) (disabled : Bool) where
  pub run_sandboxed_sql-Returns :
      (agent_id sql : Bytes) (pg_role : Option Bytes)
      → Returns db (run_sandboxed_sql db disabled agent_id sql pg_role) (
          told_of (
            run_dropped db disabled
              (sandbox_settings agent_id (role_of pg_role))
              "sandbox role unavailable"
              5000
              (sandboxed sql)
              (err (lit "sandboxed execution returned nothing"))))
  unfolding run_sandboxed_sql
  run_sandboxed_sql-Returns agent_id sql pg_role = in_transaction db _

  pub run_function_call-Returns :
      (name : Bytes) (args : Json) (pg_role : Option Bytes)
      → Returns db (run_function_call db disabled name args pg_role) (
          unless_invalid (valid_sql_ident name (lit "fn_")) (
            run_dropped db disabled
              (call_settings "5000" (role_of pg_role))
              "function role unavailable"
              5000
              (function_call name args)
              (ok null)))
  unfolding run_function_call
  run_function_call-Returns name args pg_role = call_Returns db (valid_sql_ident name (lit "fn_")) _

  pub run_procedure_call-Returns :
      (name : Bytes) (args : Json) (pg_role : Option Bytes)
      → Returns db (run_procedure_call db disabled name args pg_role) (
          unless_invalid (valid_sql_ident name (lit "proc_")) (
            run_dropped db disabled
              (call_settings "60000" (role_of pg_role))
              "procedure role unavailable"
              60000
              (procedure_call name args)
              (ok null)))
  unfolding run_procedure_call
  run_procedure_call-Returns name args pg_role =
      call_Returns db (valid_sql_ident name (lit "proc_")) _

  pub run_function_build-Returns :
      (nanos name text : Bytes)
      → Returns db (run_function_build db disabled nanos name text) (
          unless_invalid
            (valid_sql_ident name (lit "fn_"))
            (run_ddl db disabled (create_function nanos name text)))
  unfolding run_function_build
  run_function_build-Returns nanos name text = call_Returns db (valid_sql_ident name (lit "fn_")) _

  pub run_procedure_build-Returns :
      (nanos name text : Bytes)
      → Returns db (run_procedure_build db disabled nanos name text) (
          unless_invalid
            (valid_sql_ident name (lit "proc_"))
            (run_ddl db disabled (create_procedure nanos name text)))
  unfolding run_procedure_build
  run_procedure_build-Returns nanos name text =
      call_Returns db (valid_sql_ident name (lit "proc_")) _

-- All that the executors tell of a name, a text and arguments.
pub record AllReturn (db : Database) (disabled : Bool) (name text nanos : Bytes) (args : Json)
    (pg_role : Option Bytes) : Type 0 where
  pub of_sql : Returns db (run_sandboxed_sql db disabled name text pg_role) (
      told_of (
        run_dropped db disabled
          (sandbox_settings name (role_of pg_role))
          "sandbox role unavailable"
          5000
          (sandboxed text)
          (err (lit "sandboxed execution returned nothing"))))
  pub of_function : Returns db (run_function_call db disabled name args pg_role) (
      unless_invalid (valid_sql_ident name (lit "fn_")) (
        run_dropped db disabled
          (call_settings "5000" (role_of pg_role))
          "function role unavailable"
          5000
          (function_call name args)
          (ok null)))
  pub of_procedure : Returns db (run_procedure_call db disabled name args pg_role) (
      unless_invalid (valid_sql_ident name (lit "proc_")) (
        run_dropped db disabled
          (call_settings "60000" (role_of pg_role))
          "procedure role unavailable"
          60000
          (procedure_call name args)
          (ok null)))
  pub of_function_build : Returns db (run_function_build db disabled nanos name text) (
      unless_invalid
        (valid_sql_ident name (lit "fn_"))
        (run_ddl db disabled (create_function nanos name text)))
  pub of_procedure_build : Returns db (run_procedure_build db disabled nanos name text) (
      unless_invalid
        (valid_sql_ident name (lit "proc_"))
        (run_ddl db disabled (create_procedure nanos name text)))

-- An executor whose name is valid comes back with what its statements came to; whatever ERROR ends
-- them, it is told by its message and goes no further, so that there is a result to hand to the
-- queue. An invalid name is told to be one. Only an ERROR of the commit itself, with no
-- subtransaction left open, unwinds to the worker's loop, and it does so as it was raised.
pub executors-Returns :
    (db : Database) (disabled : Bool) (name text nanos : Bytes) (args : Json)
    (pg_role : Option Bytes)
    → AllReturn db disabled name text nanos args pg_role
executors-Returns db disabled name text nanos args pg_role = record {
  of_sql = run_sandboxed_sql-Returns db disabled name text pg_role;
  of_function = run_function_call-Returns db disabled name args pg_role;
  of_procedure = run_procedure_call-Returns db disabled name args pg_role;
  of_function_build = run_function_build-Returns db disabled nanos name text;
  of_procedure_build = run_procedure_build-Returns db disabled nanos name text;
}
