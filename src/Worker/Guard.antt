-- ===== src/Worker/Guard.antt =====
-- How the parts of the code keep to the policy of Worker/Policy: what each sends, and what it
-- establishes for the part that comes next.
pub mod Steps
pub mod Queues
use allgres.Base.{
  ◌+◌, ◌-◌, Bool, true, false, Option, none, some, List, [], ◌∷◌, ◌≡◌, refl, sym, subst, ap, arith,
  if◌then◌else◌, all,
}
use allgres.Bytes.{Bytes}
use allgres.Bytes.Compare.{same}
use allgres.Json.{Json}
use allgres.Worker.Session.{
  Arg, Statement, begin, query, plain, check_installed, assume, Answer, value, nothing, failed,
  raised, Database, Session, Result, ok, err, Outcome, returns, unwinds, Exec, ◌>>=◌, next, pure,
  spi, drop_privileges, end_subtransaction, run_in_subtransaction, transaction, is_true, is_ok,
  run_all, send,
}
use allgres.Worker.Execute.Order.{not_failed, says_true, answered, spi-answered}
use allgres.Worker.Policy.{
  is_own, IsSetting, is_dropped, Confined, dropped, set, Allowed, starts, asks, assumes, own, sets,
  Monitored, unchanged, Monitored-trans, Confined-is_dropped,
}

-- What need not be known of a log, what is known where a transaction has just begun, and what is
-- known of the transaction behind its settings, if they were all made.
abbrev pub Anything : List Statement → Type 0
Anything log = Unit

pub data Begun : List Statement → Type 0 where
  begun : {log : List Statement} → Begun (begin ∷ log)

-- The later statements onto the earlier ones, the last first.
unfoldable pub onto : List Statement → List Statement → List Statement
onto log [] = log
onto log (st ∷ sts) = onto (st ∷ log) sts

abbrev pub AllSettings : List Statement → Type 0
AllSettings [] = Unit
AllSettings (st ∷ sts) = IsSetting st × AllSettings sts

module _ (db : Database) where
  abbrev pub Dropped : List Statement → Type 0
  Dropped log = is_dropped db log ≡ true

  abbrev pub IfConfined : List Statement → Bool → List Statement → Type 0
  IfConfined sts true = Confined db sts
  IfConfined sts false = Anything

  -- What holds behind a part of the code: what it has sent was allowed, and `Q` of what it returns;
  -- nothing more where an ERROR unwinds it.
  abbrev pub Leaves :
      {A : Type 0} → List Statement → (A → List Statement → Type 0) → Session × Outcome A → Type 0
  Leaves old Q (s, returns a) = Monitored db old s.log × Q a s.log
  Leaves old Q (s, unwinds e) = Monitored db old s.log

  pub record Triple {A : Type 0} (P : List Statement → Type 0) (m : Exec A)
      (Q : A → List Statement → Type 0) : Type 0 where
    pub leaves : (s : Session) → P s.log → Leaves s.log Q (m s)

  -- A part of the code that keeps to the policy, and one that does so behind the drop.
  abbrev pub Keeps : {A : Type 0} → Exec A → Type 0
  Keeps m = Triple Anything m (λ _. Anything)

  abbrev pub KeepsDropped : {A : Type 0} → Exec A → Type 0
  KeepsDropped m = Triple Dropped m (λ _. Dropped)

  pub extend :
      {A : Type 0} (Q : A → List Statement → Type 0) {old log : List Statement}
      → Monitored db old log
      → (o : Session × Outcome A) → Leaves log Q o
      → Leaves old Q o
  extend Q h (s, returns a) (k, q) = (Monitored-trans db h k, q)
  extend Q h (s, unwinds e) k = Monitored-trans db h k

  pub bind_Triple :
      {A B : Type 0} {P : List Statement → Type 0} {R : A → List Statement → Type 0}
      {Q : B → List Statement → Type 0} {m : Exec A} {k : A → Exec B}
      → Triple P m R
      → ((a : A) → Triple (R a) (k a) Q)
      → Triple P (m >>= k) Q
  bind_Triple {R = R} {Q = Q} {m = m} {k = k} h g = record {
    leaves = λ s p. after s.log (m s) (h.leaves s p);
  }
    where
      after :
          (old : List Statement) (o : Session × Outcome _)
          → Leaves old R o
          → Leaves old Q (next k o)
      after old (s, returns a) (kept, r) = extend Q kept (k a s) ((g a).leaves s r)
      after old (s, unwinds e) kept = kept

  pub pure_Triple :
      {A : Type 0} {P : List Statement → Type 0} {Q : A → List Statement → Type 0} {a : A}
      → ((log : List Statement) → P log → Q a log)
      → Triple P (pure a) Q
  pure_Triple f = record { leaves = λ s p. (unchanged, f s.log p) }

  pub pure_Dropped : {A : Type 0} (a : A) → KeepsDropped (pure a)
  pure_Dropped a = record { leaves = λ s p. (unchanged, p) }

  pub pure-Keeps : {A : Type 0} (a : A) → Keeps (pure a)
  pure-Keeps a = record { leaves = λ s p. (unchanged, tt) }

  pub narrow :
      {A : Type 0} {P R : List Statement → Type 0} {m : Exec A} {Q : A → List Statement → Type 0}
      → ((log : List Statement) → R log → P log)
      → Triple P m Q
      → Triple R m Q
  narrow f h = record { leaves = λ s r. h.leaves s (f s.log r) }

  pub weaken :
      {A : Type 0} {P : List Statement → Type 0} {m : Exec A} {Q R : A → List Statement → Type 0}
      → Triple P m Q
      → ((a : A) (log : List Statement) → Q a log → R a log)
      → Triple P m R
  weaken {m = m} {Q = Q} {R = R} h f = record { leaves = λ s p. after s.log (m s) (h.leaves s p) }
    where
      after : (old : List Statement) (o : Session × Outcome _) → Leaves old Q o → Leaves old R o
      after old (s, returns a) (kept, q) = (kept, f a s.log q)
      after old (s, unwinds e) kept = kept

  -- What is known once a statement has been answered.
  abbrev pub Told :
      (Result (Option Json) → List Statement → Type 0) → List Statement → Answer → Type 0
  Told Q log (value v) = Q (ok (some v)) log
  Told Q log nothing = Q (ok none) log
  Told Q log (failed e) = Q (err e) log
  Told Q log (raised e) = Unit

  -- A statement that is allowed, and what its answer tells.
  pub spi_Triple :
      {P : List Statement → Type 0} (Q : Result (Option Json) → List Statement → Type 0)
      (st : Statement)
      → ((log : List Statement) → P log → Allowed db log st)
      → ((log : List Statement) → P log → (a : Answer) → db (st ∷ log) ≡ a → Told Q (st ∷ log) a)
      → Triple P (spi db st) Q
  spi_Triple Q st allowed told = record {
    leaves = λ s p. subst (Leaves s.log Q) (sym (spi-answered db st s)) (
        by_answer s (Monitored.sent unchanged (allowed s.log p)) (db (st ∷ s.log))
          (told s.log p (db (st ∷ s.log)) refl));
  }
    where
      by_answer :
          (s : Session)
          → Monitored db s.log (st ∷ s.log)
          → (a : Answer) → Told Q (st ∷ s.log) a
          → Leaves s.log Q (answered (record s { log = st ∷ s.log }) a)
      by_answer s m (value v) q = (m, q)
      by_answer s m nothing q = (m, q)
      by_answer s m (failed e) q = (m, q)
      by_answer s m (raised e) q = m
