-- ===== src/Worker/Execute/Order.antt =====
-- An agent's statement is sent only behind every setting that confines it.
use Prim.Native.String.{String}
use allgres.Base.{
  ℕ, ◌+◌, Bool, true, false, Option, none, some, List, [], ◌∷◌, ◌≡◌, refl, sym, subst,
  if◌then◌else◌,
}
use allgres.Bytes.{lit}
use allgres.Json.{Json}
use allgres.Worker.Session.{
  Statement, Answer, value, nothing, failed, raised, Database, Session, Result, ok, err, Outcome,
  returns, unwinds, Exec, ◌>>=◌, next, pure, spi, drop_privileges, run_all, end_subtransaction,
  raise, run_in_subtransaction, set_timer, assume, is_ok, is_true,
}
use allgres.Worker.Execute.{drop_and_set, run_timed, run_dropped, result_of}

-- How the answer to a statement lets the code go on.
abbrev pub Permits : Type 0
Permits = Answer → Bool

abbrev pub not_failed : Permits
not_failed (value v) = true
not_failed nothing = true
not_failed _ = false

abbrev pub says_true : Permits
says_true (value (Json.bool b)) = b
says_true _ = false

-- The log grows by the statements of a script in order, each sent only if the one before it was
-- permitted to go on.
pub data Follows (db : Database)
    : List (Statement × Permits) → List Statement → List Statement → Type 0 where
  finished : {log : List Statement} → Follows db [] log log
  denied :
      {st : Statement} {p : Permits} {script : List (Statement × Permits)} {log : List Statement}
      → p (db (st ∷ log)) ≡ false
      → Follows db ((st, p) ∷ script) log (st ∷ log)
  permitted :
      {st : Statement} {p : Permits} {script : List (Statement × Permits)}
      {log log' : List Statement}
      → p (db (st ∷ log)) ≡ true
      → Follows db script (st ∷ log) log'
      → Follows db ((st, p) ∷ script) log log'

-- The settings, and behind them what `rest` is.
abbrev pub settings_then : List Statement → List (Statement × Permits) → List (Statement × Permits)
settings_then [] rest = rest
settings_then (st ∷ sts) rest = (st, not_failed) ∷ settings_then sts rest

abbrev pub sent : Statement → Session → Session
sent st s = record s { log = st ∷ s.log }

-- What an answer makes of the statement that it answers.
abbrev pub answered : Session → Answer → Session × Outcome (Result (Option Json))
answered s (value v) = (s, returns (ok (some v)))
answered s nothing = (s, returns (ok none))
answered s (failed e) = (s, returns (err e))
answered s (raised e) = raise e s

pub spi-answered :
    (db : Database) (st : Statement) (s : Session)
    → spi db st s ≡ answered (sent st s) (db (st ∷ s.log))
unfolding spi
spi-answered db st s =
    elim (db (st ∷ s.log))
      as (λ a.
        elim a as (λ _. Session × Outcome (Result (Option Json))) [
          | value v ↦ (sent st s, returns (ok (some v)))
          | nothing ↦ (sent st s, returns (ok none))
          | failed e ↦ (sent st s, returns (err e))
          | raised e ↦ raise e (sent st s)
        ]
        ≡ answered (sent st s) a) [
          | value v ↦ refl
          | nothing ↦ refl
          | failed e ↦ refl
          | raised e ↦ refl
        ]

module _ (db : Database) {A : Type 0} (k : Bool → Exec A) (rest : List (Statement × Permits)) where
  -- Behind a refusal nothing is sent; behind the settings what `rest` allows.
  abbrev Stops : Type 0
  Stops = (s : Session) → (k false s).0.log ≡ s.log

  abbrev GoesOn : Type 0
  GoesOn = (s : Session) → Follows db rest s.log (k true s).0.log

  run_all-Follows :
      (sts : List Statement) (s : Session)
      → Stops
      → GoesOn
      → Follows db (settings_then sts rest) s.log ((run_all db sts >>= k) s).0.log
  unfolding run_all
  run_all-Follows [] s stops on = on s
  run_all-Follows (st ∷ sts) s stops on =
      subst (λ o. Follows db (settings_then (st ∷ sts) rest) s.log (next k (next after o)).0.log)
        (sym (spi-answered db st s))
        (by_answer (db (st ∷ s.log)) refl (run_all-Follows sts (sent st s) stops on))
    where
      after : Result (Option Json) → Exec Bool
      after r = if is_ok r then run_all db sts else pure false

      by_answer :
          (a : Answer)
          → db (st ∷ s.log) ≡ a
          → Follows db
              (settings_then sts rest)
              (st ∷ s.log)
              ((run_all db sts >>= k) (sent st s)).0.log
          → Follows db
              (settings_then (st ∷ sts) rest)
              s.log
              (next k (next after (answered (sent st s) a))).0.log
      by_answer (value v) e later = permitted (rw e refl) later
      by_answer nothing e later = permitted (rw e refl) later
      by_answer (failed x) e later =
          subst (Follows db (settings_then (st ∷ sts) rest) s.log) (sym (stops (sent st s)))
            (denied (rw e refl))
      by_answer (raised x) e later = denied (rw e refl)

-- Whatever is answered, the code may go on.
abbrev pub whatever : Permits
whatever a = true

-- First the privileges, unless that is switched off.
abbrev pub dropping : Bool → List (Statement × Permits) → List (Statement × Permits)
dropping true script = script
dropping false script = (assume, says_true) ∷ script

module _ (db : Database) (settings : List Statement) (refusal : String) (ms : ℕ) (st : Statement)
    (missing : Result Json) where
  abbrev last_step : List (Statement × Permits)
  last_step = (st, whatever) ∷ []

  run_timed-Follows :
      (disabled : Bool) (s : Session)
      → Follows db last_step s.log (run_timed db disabled ms st missing s).0.log
  unfolding run_timed
  run_timed-Follows disabled s =
      subst
        (λ o.
          Follows db last_step s.log
            (next (λ r. set_timer none >>= (λ _. pure (result_of missing r))) o).0.log)
        (sym (spi-answered db st (record s { timer = some ms }))) (by_answer (db (st ∷ s.log)))
    where
      by_answer :
          (a : Answer)
          → Follows db last_step s.log
              (next
                (λ r. set_timer none >>= (λ _. pure (result_of missing r)))
                (answered (record s { log = st ∷ s.log; timer = some ms }) a)).0.log
      by_answer (value v) = permitted refl finished
      by_answer nothing = permitted refl finished
      by_answer (failed e) = permitted refl finished
      by_answer (raised e) = permitted refl finished

  abbrev then_timed : Bool → Bool → Exec (Result Json)
  then_timed disabled dropped =
      if dropped then run_timed db disabled ms st missing else pure (err (lit refusal))

  settings-Follows :
      (disabled : Bool) (s : Session)
      → Follows db
          (settings_then settings last_step)
          s.log
          ((run_all db settings >>= then_timed disabled) s).0.log
  settings-Follows disabled s =
      run_all-Follows db (then_timed disabled) last_step settings s (λ s'. refl)
        (λ s'. run_timed-Follows disabled s')

  abbrev then_settings : Session × Outcome (Result (Option Json)) → Session × Outcome (Result Json)
  then_settings o =
      next (then_timed false)
        (next (λ b. if b then run_all db settings else pure false) (next (λ r. pure (is_true r)) o))

  assume-Follows :
      (s : Session) (a : Answer)
      → db (assume ∷ s.log) ≡ a
      → Follows db
          ((assume, says_true) ∷ settings_then settings last_step)
          s.log
          (then_settings (answered (sent assume s) a)).0.log
  assume-Follows s (value (Json.bool true)) e =
      permitted (rw e refl) (settings-Follows false (sent assume s))
  assume-Follows s (value _) e = denied (rw e refl)
  assume-Follows s nothing e = denied (rw e refl)
  assume-Follows s (failed x) e = denied (rw e refl)
  assume-Follows s (raised x) e = denied (rw e refl)

  pub run_dropped-Follows :
      (disabled : Bool) (s : Session)
      → Follows db
          (dropping disabled (settings_then settings last_step))
          s.log
          (run_dropped db disabled settings refusal ms st missing s).0.log
  unfolding run_dropped drop_and_set drop_privileges
  run_dropped-Follows true s = settings-Follows true s
  run_dropped-Follows false s =
      subst
        (λ o.
          Follows db ((assume, says_true) ∷ settings_then settings last_step) s.log
            (then_settings o).0.log)
        (sym (spi-answered db assume s)) (assume-Follows s (db (assume ∷ s.log)) refl)

end_subtransaction-log :
    {A : Type 0} (o : Session × Outcome (Result A)) → (end_subtransaction o).0.log ≡ o.0.log
unfolding end_subtransaction
end_subtransaction-log (s, returns (ok a)) = refl
end_subtransaction-log (s, returns (err e)) = refl
end_subtransaction-log (s, unwinds e) = refl

pub run_in_subtransaction-log :
    {A : Type 0} (f : Exec (Result A)) (s : Session)
    → (run_in_subtransaction f s).0.log ≡ (f (record s { depth = s.depth + 1 })).0.log
unfolding run_in_subtransaction
run_in_subtransaction-log f s = end_subtransaction-log (f (record s { depth = s.depth + 1 }))
