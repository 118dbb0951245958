-- ===== src/Worker/Guard/Steps.antt =====
-- What the steps of src/runtime_worker.rs and src/sandbox.rs send and establish: the drop of
-- privileges, the settings, a subtransaction, a transaction.
use allgres.Base.{ℕ, zero, suc, ◌+◌, true, false, List, [], ◌∷◌, ◌≡◌, ap, arith, if◌then◌else◌}
use allgres.Bytes.{Bytes}
use allgres.Json.{Json}
use allgres.Worker.Session.{
  Arg, Statement, begin, query, assume, Answer, value, nothing, failed, raised, Database, Session,
  Result, ok, err, Outcome, returns, unwinds, Exec, pure, spi, drop_privileges, end_subtransaction,
  run_in_subtransaction, transaction, commit, concluded, committed, end_transaction, is_true, is_ok,
  run_all, send,
}
use allgres.Worker.Execute.Order.{not_failed, says_true}
use allgres.Worker.Policy.{
  is_own, IsSetting, is_dropped, Confined, dropped, set, Allowed, starts, assumes, own, sets,
  Monitored, unchanged,
}
use allgres.Worker.Guard.{
  Anything, Begun, begun, onto, AllSettings, Dropped, IfConfined, Leaves, Triple, Keeps,
  KeepsDropped, extend, bind_Triple, pure_Triple, Told, spi_Triple,
}

module _ (db : Database) where
  Dropped-sent :
      (sql : Bytes) (args : List Arg) (log : List Statement)
      → Dropped db log
      → Dropped db (query sql args ∷ log)
  unfolding is_dropped
  Dropped-sent sql args log p = ground arith

  -- Behind the drop of privileges the worker sends statements of its own.
  pub own_Triple :
      (sql : Bytes) (args : List Arg)
      → is_own sql ≡ true
      → KeepsDropped db (spi db (query sql args))
  own_Triple sql args x =
      spi_Triple db (λ _. Dropped db) (query sql args) (λ log p. own x p) (λ log p. told log p)
    where
      told :
          (log : List Statement)
          → Dropped db log
          → (a : Answer) → db (query sql args ∷ log) ≡ a
          → Told db (λ _. Dropped db) (query sql args ∷ log) a
      told log p (raised e) _ = tt
      told log p (value v) _ = Dropped-sent sql args log p
      told log p nothing _ = Dropped-sent sql args log p
      told log p (failed e) _ = Dropped-sent sql args log p

  -- A statement behind which nothing is known.
  pub last_Triple :
      {P : List Statement → Type 0} (st : Statement)
      → ((log : List Statement) → P log → Allowed db log st)
      → Triple db P (spi db st) (λ _. Anything)
  last_Triple st allowed = spi_Triple db (λ _. Anything) st allowed (λ log p. told log)
    where
      told :
          (log : List Statement) (a : Answer)
          → db (st ∷ log) ≡ a
          → Told db (λ _. Anything) (st ∷ log) a
      told log (raised e) _ = tt
      told log (value v) _ = tt
      told log nothing _ = tt
      told log (failed e) _ = tt

  pub drop_privileges_Triple : Triple db Begun (drop_privileges db false) (IfConfined db [])
  unfolding drop_privileges
  drop_privileges_Triple =
      bind_Triple db
        (spi_Triple db (λ r. IfConfined db [] (is_true r)) assume (λ log p. assumes) told)
        (λ r. pure_Triple db (λ log q. q))
    where
      told :
          (log : List Statement)
          → Begun log
          → (a : Answer) → db (assume ∷ log) ≡ a
          → Told db (λ r. IfConfined db [] (is_true r)) (assume ∷ log) a
      told _ begun (value (Json.bool true)) e = dropped (ap says_true e)
      told log p (value _) e = tt
      told log p nothing e = tt
      told log p (failed x) e = tt
      told log p (raised x) e = tt

  setting_Triple :
      (sts : List Statement) (st : Statement)
      → IsSetting st
      → Triple db (Confined db sts) (spi db st) (λ r. IfConfined db (st ∷ sts) (is_ok r))
  setting_Triple sts begin x = elim x [ ]
  setting_Triple sts commit x = elim x [ ]
  setting_Triple sts (query sql args) x =
      spi_Triple db (λ r. IfConfined db (query sql args ∷ sts) (is_ok r)) (query sql args)
        (λ log c. sets x c) told
    where
      told :
          (log : List Statement)
          → Confined db sts log
          → (a : Answer) → db (query sql args ∷ log) ≡ a
          → Told db (λ r. IfConfined db (query sql args ∷ sts) (is_ok r)) (query sql args ∷ log) a
      told log c (value v) e = set c (ap not_failed e)
      told log c nothing e = set c (ap not_failed e)
      told log c (failed x) e = tt
      told log c (raised x) e = tt

  pub run_all_Triple :
      (done sts : List Statement)
      → AllSettings sts
      → Triple db (Confined db done) (run_all db sts) (IfConfined db (onto done sts))
  unfolding run_all onto
  run_all_Triple done [] h = pure_Triple db (λ log c. c)
  run_all_Triple done (st ∷ sts) (x, xs) = bind_Triple db (setting_Triple done st x) (λ r.
      elim r
        as (λ r.
          Triple db (IfConfined db (st ∷ done) (is_ok r))
            (if is_ok r then run_all db sts else pure false)
            (IfConfined db (onto (st ∷ done) sts))) [
              | ok v ↦ run_all_Triple (st ∷ done) sts xs
              | err e ↦ pure_Triple db (λ log c. c)
            ])

  pub run_in_subtransaction_Triple :
      {A : Type 0} {P : List Statement → Type 0} {m : Exec (Result A)}
      → Triple db P m (λ _. Anything)
      → Triple db P (run_in_subtransaction m) (λ _. Anything)
  unfolding run_in_subtransaction end_subtransaction
  run_in_subtransaction_Triple {A = A} {m = m} h = record {
    leaves = λ s p.
        after s.log (m (record s { depth = s.depth + 1 }))
          (h.leaves (record s { depth = s.depth + 1 }) p);
  }
    where
      after :
          (old : List Statement) (o : Session × Outcome (Result A))
          → Leaves db old (λ _. Anything) o
          → Leaves db old (λ _. Anything) (end_subtransaction o)
      after old (s, returns (ok a)) p = p
      after old (s, returns (err e)) p = p
      after old (s, unwinds e) p = (p, tt)

  pub transaction_Triple :
      {A : Type 0} {m : Exec A} → Triple db Begun m (λ _. Anything) → Keeps db (transaction db m)
  unfolding transaction end_transaction
  transaction_Triple {A = A} {m = m} h = record {
    leaves = λ s p. after s.log (m (send begin s)) (
        extend db (λ _. Anything) (Monitored.sent unchanged starts) (m (send begin s))
          (h.leaves (send begin s) begun));
  }
    where
      by_answer :
          (old : List Statement) (s : Session) (a : A) (x : Answer)
          → Leaves db old (λ _. Anything) (s, returns a)
          → Leaves db old (λ _. Anything) (concluded s a x)
      by_answer old s a (raised e) p = p.0
      by_answer old s a (value v) p = p
      by_answer old s a nothing p = p
      by_answer old s a (failed e) p = p

      by_depth :
          (old : List Statement) (s : Session) (a : A) (n : ℕ)
          → Leaves db old (λ _. Anything) (s, returns a)
          → Leaves db old (λ _. Anything) (committed db n s a)
      by_depth old s a zero p = by_answer old s a (db (commit ∷ s.log)) p
      by_depth old s a (suc n) p = p

      after :
          (old : List Statement) (o : Session × Outcome A)
          → Leaves db old (λ _. Anything) o
          → Leaves db old (λ _. Anything) (end_transaction db o)
      after old (s, returns a) p = by_depth old s a s.depth p
      after old (s, unwinds e) p = p
