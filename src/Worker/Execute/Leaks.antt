-- ===== src/Worker/Execute/Leaks.antt =====
-- What an executor leaves behind: an open subtransaction, a running timer.
use Prim.Native.String.{String}
use allgres.Base.{
  ℕ, ◌+◌, Bool, false, Option, none, some, List, ◌∷◌, ◌≡◌, refl, sym, ap, subst, ◌∙◌, if◌then◌else◌,
}
use allgres.Bytes.{Bytes, lit}
use allgres.Json.{Json}
use allgres.Worker.Session.{
  Statement, begin, transaction, Answer, value, nothing, failed, raised, Database, Session, Outcome,
  returns, Result, err, ◌>>=◌, next, pure, drop_privileges, run_all, end_subtransaction,
  run_in_subtransaction, end_transaction-Stays, unspent, set_timer, assume, is_true,
}
use allgres.Worker.Execute.{run_timed, run_dropped, drop_and_set, result_of, run_sandboxed_sql}
use allgres.Worker.Execute.Order.{answered, sent, spi-answered}

-- What is left of the timer, by the answer to the agent's statement.
abbrev pub timer_after : ℕ → Answer → Option ℕ
timer_after ms (raised e) = unspent e.by_timer (some ms)
timer_after ms _ = none

-- The timer that bounds an agent's statement does not run behind it, except where the statement
-- raises an ERROR that is not the timer's own: then it is left running.
pub run_timed-timer :
    (db : Database) (disabled : Bool) (ms : ℕ) (st : Statement) (missing : Result Json)
    (s : Session)
    → (run_timed db disabled ms st missing s).0.timer ≡ timer_after ms (db (st ∷ s.log))
unfolding run_timed
run_timed-timer db disabled ms st missing s =
    subst (λ o. (then_stop o).0.timer ≡ timer_after ms (db (st ∷ s.log)))
      (sym (spi-answered db st (record s { timer = some ms }))) (by_answer (db (st ∷ s.log)))
  where
    then_stop : Session × Outcome (Result (Option Json)) → Session × Outcome (Result Json)
    then_stop o = next (λ r. set_timer none >>= (λ _. pure (result_of missing r))) o

    by_answer :
        (a : Answer)
        → (then_stop (answered (record s { log = st ∷ s.log; timer = some ms }) a)).0.timer
          ≡ timer_after ms a
    by_answer (value v) = refl
    by_answer nothing = refl
    by_answer (failed e) = refl
    by_answer (raised e) = refl

run_dropped-denied :
    (db : Database) (settings : List Statement) (refusal : String) (ms : ℕ) (st : Statement)
    (missing : Result Json) (s : Session)
    → db (assume ∷ s.log) ≡ value (Json.bool false)
    → run_dropped db false settings refusal ms st missing s
      ≡ (sent assume s, returns (err (lit refusal)))
unfolding run_dropped drop_and_set drop_privileges
run_dropped-denied db settings refusal ms st missing s h =
    ap then_all (spi-answered db assume s ∙ ap (answered (sent assume s)) h)
  where
    then_all : Session × Outcome (Result (Option Json)) → Session × Outcome (Result Json)
    then_all o =
        next
          (λ dropped.
            if dropped then run_timed db false ms st missing else pure (err (lit refusal)))
          (next (λ b. if b then run_all db settings else pure false)
            (next (λ r. pure (is_true r)) o))

-- A sandboxed statement that is refused because the worker's role is not ready leaves its
-- subtransaction open.
pub run_sandboxed_sql-depth :
    (db : Database) (agent_id sql : Bytes) (pg_role : Option Bytes) (s : Session)
    → db (assume ∷ begin ∷ s.log) ≡ value (Json.bool false)
    → (run_sandboxed_sql db false agent_id sql pg_role s).0.depth ≡ s.depth + 1
unfolding run_sandboxed_sql transaction run_in_subtransaction end_subtransaction
run_sandboxed_sql-depth db agent_id sql pg_role s h =
    (end_transaction-Stays db _).depth
    ∙ rw (run_dropped-denied db _ _ _ _ _ (record s { log = begin ∷ s.log; depth = s.depth + 1 }) h)
        refl
