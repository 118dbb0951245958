-- ===== src/Worker/Session.antt =====
-- A database session of the runtime worker: the statements sent, subtransactions, the statement
-- timer, and src/runtime_worker.rs `drop_privileges` and src/sandbox.rs `run_in_subtransaction`.
use mathlib.Core.Bool.{true≢false}
use allgres.Base.{
  ℕ, zero, suc, ◌+◌, ◌-◌, Bool, true, false, Option, none, some, List, [], ◌∷◌, if◌then◌else◌, ◌≡◌,
  refl,
}
use allgres.Bytes.{Bytes, lit}
use allgres.Json.{Json}

-- A bound argument; an integer is the bits of an i32, and `absent` is NULL.
pub data Arg : Type 0 where
  text_arg : Bytes → Arg
  int_arg : ℕ → Arg
  bool_arg : Bool → Arg
  json_arg : Json → Arg
  texts_arg : List Bytes → Arg
  absent : Arg

-- What is sent: that the block of a transaction starts (`StartTransactionCommand`) or ends
-- (`CommitTransactionCommand`), or a statement with its arguments.
pub data Statement : Type 0 where
  begin commit : Statement
  query : Bytes → List Arg → Statement

abbrev pub plain : Bytes → Statement
plain sql = query sql []

-- An ERROR: its message, and whether it is that of the statement timer, which has fired.
pub record Fault : Type 0 where
  pub message : Bytes
  pub by_timer : Bool

-- What PostgreSQL answers: a value, no row, an error code of SPI, or an ERROR, which is raised.
pub data Answer : Type 0 where
  value : Json → Answer
  nothing : Answer
  failed : Bytes → Answer
  raised : Fault → Answer

-- PostgreSQL: the answer to the last statement, from all statements so far, the last first.
abbrev pub Database : Type 0
Database = List Statement → Answer

-- The statements sent, the last first, with `begin` for each block of a transaction; how many
-- subtransactions are open; and the timer's milliseconds while it runs.
pub record Session : Type 0 where
  pub log : List Statement
  pub depth : ℕ
  pub timer : Option ℕ

-- `Result<A, String>`
pub data Result (A : Type 0) : Type 0 where
  ok : A → Result A
  err : Bytes → Result A

-- What a part of the code comes to: it returns, or an ERROR unwinds it.
pub data Outcome (A : Type 0) : Type 0 where
  returns : A → Outcome A
  unwinds : Bytes → Outcome A

abbrev pub Exec : Type 0 → Type 0
Exec A = Session → Session × Outcome A

-- An ERROR passes by what would come next.
abbrev pub next : {A B : Type 0} → (A → Exec B) → Session × Outcome A → Session × Outcome B
next k (s, returns a) = k a s
next k (s, unwinds e) = (s, unwinds e)

infixl 5 ◌>>=◌
abbrev pub ◌>>=◌ : {A B : Type 0} → Exec A → (A → Exec B) → Exec B
◌>>=◌ m k s = next k (m s)

abbrev pub pure : {A : Type 0} → A → Exec A
pure a s = (s, returns a)

abbrev pub send : Statement → Session → Session
send st s = record s { log = st ∷ s.log }

-- The timer fires once: behind its own ERROR it runs no more.
abbrev pub unspent : Bool → Option ℕ → Option ℕ
unspent true t = none
unspent false t = t

-- An ERROR unwinds the code.
abbrev pub raise : {A : Type 0} → Fault → Session → Session × Outcome A
raise e s = (record s { timer = unspent e.by_timer s.timer }, unwinds e.message)

-- `Spi::get_one_with_args`
unfoldable pub spi : Database → Statement → Exec (Result (Option Json))
spi db st s = elim (db (st ∷ s.log)) [
  | value v ↦ (send st s, returns (ok (some v)))
  | nothing ↦ (send st s, returns (ok none))
  | failed e ↦ (send st s, returns (err e))
  | raised e ↦ raise e (send st s)
]

-- The question whether the extension is installed.
abbrev pub check_installed : Bytes
check_installed = lit "SELECT EXISTS (SELECT 1 FROM pg_extension WHERE extname = 'allgres')"

abbrev pub assume : Statement
assume = plain (lit "SELECT allgres.assume_worker_role()")

-- The end of the block is reached behind a result only. It commits, which may raise an ERROR, unless
-- a subtransaction is open: then the transaction stays open, and the next block continues it.
abbrev pub concluded : {A : Type 0} → Session → A → Answer → Session × Outcome A
concluded s a (raised e) = raise e s
concluded s a (value v) = (s, returns a)
concluded s a nothing = (s, returns a)
concluded s a (failed e) = (s, returns a)

abbrev pub committed : {A : Type 0} → Database → ℕ → Session → A → Session × Outcome A
committed db zero s a = concluded s a (db (commit ∷ s.log))
committed db (suc n) s a = (s, returns a)

unfoldable pub end_transaction : {A : Type 0} → Database → Session × Outcome A → Session × Outcome A
end_transaction db (s, returns a) = committed db s.depth s a
end_transaction db (s, unwinds e) = (s, unwinds e)

-- `BackgroundWorker::transaction`
unfoldable pub transaction : {A : Type 0} → Database → Exec A → Exec A
transaction db m s = end_transaction db (m (send begin s))

abbrev pub is_true : Result (Option Json) → Bool
is_true (ok (some (Json.bool b))) = b
is_true _ = false

abbrev pub is_ok : Result (Option Json) → Bool
is_ok (ok v) = true
is_ok (err e) = false

-- The Boolean is whether ALLGRES_DROP_PRIVILEGES is 0.
unfoldable pub drop_privileges : Database → Bool → Exec Bool
drop_privileges db disabled =
    if disabled then pure true else (spi db assume >>= (λ r. pure (is_true r)))

-- `Spi::run(..).is_ok() && ..`
unfoldable pub run_all : Database → List Statement → Exec Bool
run_all db [] = pure true
run_all db (st ∷ sts) = spi db st >>= (λ r. if is_ok r then run_all db sts else pure false)

-- The subtransaction is released behind a result, and rolled back behind an ERROR; an error that is
-- returned leaves it open.
unfoldable pub end_subtransaction :
    {A : Type 0} → Session × Outcome (Result A) → Session × Outcome (Result A)
end_subtransaction (s, returns (ok a)) = (record s { depth = s.depth - 1 }, returns (ok a))
end_subtransaction (s, returns (err e)) = (s, returns (err e))
end_subtransaction (s, unwinds e) = (record s { depth = s.depth - 1 }, returns (err e))

unfoldable pub run_in_subtransaction : {A : Type 0} → Exec (Result A) → Exec (Result A)
run_in_subtransaction f s = end_subtransaction (f (record s { depth = s.depth + 1 }))

-- `enable_timeout_after`, `disable_timeout`
abbrev pub set_timer : Option ℕ → Exec Unit
set_timer t s = (record s { timer = t }, returns tt)

-- A statement that is answered with a value.
pub spi-value :
    (db : Database) (st : Statement) (s : Session) {v : Json}
    → db (st ∷ s.log) ≡ value v
    → spi db st s ≡ (send st s, returns (ok (some v)))
unfolding spi
spi-value db st s e = rw (spi, e) refl

-- The end of a block sends no statement of its own, and closes no subtransaction.
pub record Stays {A B : Type 0} (o : Session × Outcome A) (o' : Session × Outcome B) : Type 0 where
  pub log : o'.0.log ≡ o.0.log
  pub depth : o'.0.depth ≡ o.0.depth

concluded-Stays :
    {A : Type 0} (s : Session) (a : A) (x : Answer) → Stays (s, returns a) (concluded s a x)
concluded-Stays s a (raised e) = record { log = refl; depth = refl }
concluded-Stays s a (value v) = record { log = refl; depth = refl }
concluded-Stays s a nothing = record { log = refl; depth = refl }
concluded-Stays s a (failed e) = record { log = refl; depth = refl }

pub end_transaction-Stays :
    {A : Type 0} (db : Database) (o : Session × Outcome A) → Stays o (end_transaction db o)
unfolding end_transaction
end_transaction-Stays db (s, returns a) = by_depth s.depth
  where
    by_depth : (n : ℕ) → Stays (s, returns a) (committed db n s a)
    by_depth zero = concluded-Stays s a (db (commit ∷ s.log))
    by_depth (suc n) = record { log = refl; depth = refl }
end_transaction-Stays db (s, unwinds e) = record { log = refl; depth = refl }

abbrev pub is_raised : Answer → Bool
is_raised (raised e) = true
is_raised _ = false

concluded-unraised :
    {A : Type 0} (s : Session) (a : A) (x : Answer)
    → is_raised x ≡ false
    → concluded s a x ≡ (s, returns a)
concluded-unraised s a (raised e) h = absurd (true≢false h)
concluded-unraised s a (value v) h = refl
concluded-unraised s a nothing h = refl
concluded-unraised s a (failed e) h = refl

-- A block whose end raises no ERROR gives its result.
pub end_transaction-unraised :
    {A : Type 0} (db : Database) (s : Session) (a : A)
    → is_raised (db (commit ∷ s.log)) ≡ false
    → end_transaction db (s, returns a) ≡ (s, returns a)
unfolding end_transaction
end_transaction-unraised db s a h = by_depth s.depth
  where
    by_depth : (n : ℕ) → committed db n s a ≡ (s, returns a)
    by_depth zero = concluded-unraised s a (db (commit ∷ s.log)) h
    by_depth (suc n) = refl
