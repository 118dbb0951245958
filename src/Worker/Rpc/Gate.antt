-- ===== src/Worker/Rpc/Gate.antt =====
-- What of a request over the socket reaches the database.
use allgres.Base.{
  Bool, true, false, ◌&&◌, Option, none, some, List, [], ◌∷◌, ◌≡◌, ◌⊎◌, inl, inr, refl, sym, subst,
  if◌then◌else◌, take, and_true,
}
use allgres.Bytes.{Bytes, lit}
use allgres.Json.{Json}
use allgres.Utf8.{utf8_from, IsUtf8}
use allgres.Http.{max_request_bytes}
use allgres.Worker.Session.{
  Statement, begin, query, text_arg, Answer, value, nothing, failed, raised, assume, Database,
  Session, Outcome, Result, ◌>>=◌, next, pure, send, spi, drop_privileges, transaction,
  end_transaction-Stays, is_true,
}
use allgres.Worker.Execute.Order.{
  Permits, Follows, finished, denied, permitted, says_true, whatever, dropping, sent, answered,
  spi-answered,
}
use allgres.Worker.Claims.{dropped_or, dashboard_rpc, rpc_failure}
use allgres.Worker.Rpc.{handle_rpc_stream}

module _ (db : Database) {A : Type 0} (refused : A) (st : Statement)
    (f : Result (Option Json) → A) where
  abbrev last : List (Statement × Permits)
  last = (st, whatever) ∷ []

  spi-Follows : (s : Session) → Follows db last s.log ((spi db st >>= (λ r. pure (f r))) s).0.log
  spi-Follows s =
      subst (λ o. Follows db last s.log (next (λ r. pure (f r)) o).0.log)
        (sym (spi-answered db st s)) (by_answer (db (st ∷ s.log)))
    where
      by_answer :
          (a : Answer)
          → Follows db last s.log (next (λ r. pure (f r)) (answered (sent st s) a)).0.log
      by_answer (value v) = permitted refl finished
      by_answer nothing = permitted refl finished
      by_answer (failed e) = permitted refl finished
      by_answer (raised e) = permitted refl finished

  abbrev then_last : Session × Outcome (Result (Option Json)) → Session × Outcome A
  then_last o =
      next (λ b. if b then spi db st >>= (λ r. pure (f r)) else pure refused)
        (next (λ r. pure (is_true r)) o)

  assume-Follows :
      (s : Session) (a : Answer)
      → db (assume ∷ s.log) ≡ a
      → Follows db ((assume, says_true) ∷ last) s.log (then_last (answered (sent assume s) a)).0.log
  assume-Follows s (value (Json.bool true)) e = permitted (rw e refl) (spi-Follows (sent assume s))
  assume-Follows s (value _) e = denied (rw e refl)
  assume-Follows s nothing e = denied (rw e refl)
  assume-Follows s (failed x) e = denied (rw e refl)
  assume-Follows s (raised x) e = denied (rw e refl)

  dropped_or-Follows :
      (disabled : Bool) (s : Session)
      → Follows db
          (dropping disabled last)
          s.log
          (dropped_or db disabled refused (spi db st >>= (λ r. pure (f r))) s).0.log
  unfolding dropped_or drop_privileges
  dropped_or-Follows true s = spi-Follows s
  dropped_or-Follows false s =
      subst (λ o. Follows db ((assume, says_true) ∷ last) s.log (then_last o).0.log)
        (sym (spi-answered db assume s)) (assume-Follows s (db (assume ∷ s.log)) refl)

abbrev pub rpc_call : Bytes → Statement
rpc_call body = query (lit "SELECT allgres.dashboard_rpc($1::jsonb)") (text_arg body ∷ [])

-- The request that reaches the database.
pub record IsLetThrough (db : Database) (disabled : Bool) (parses : Bytes → Bool) (ready : Bool)
    (bytes : Bytes) (log log' : List Statement) : Type 0 where
  pub installed : ready ≡ true
  pub well_formed : parses (take max_request_bytes bytes) ≡ true
  pub decoded : IsUtf8 (take max_request_bytes bytes)
  pub confined :
      Follows db
        (dropping disabled ((rpc_call (take max_request_bytes bytes), whatever) ∷ []))
        (begin ∷ log)
        log'

abbrev pub Gated :
    Database
    → Bool
    → (Bytes → Bool)
    → Bool
    → Option Bytes
    → List Statement
    → List Statement
    → Type 0
Gated db disabled parses ready none log log' = log' ≡ log
Gated db disabled parses ready (some bytes) log log' =
    (log' ≡ log) ⊎ IsLetThrough db disabled parses ready bytes log log'

dashboard_rpc-Follows :
    (db : Database) (disabled : Bool) (print : Json → Bytes) (body : Bytes) (s : Session)
    → Follows db
        (dropping disabled ((rpc_call body, whatever) ∷ []))
        (begin ∷ s.log)
        (dashboard_rpc db disabled print body s).0.log
unfolding dashboard_rpc transaction
dashboard_rpc-Follows db disabled print body s =
    subst (Follows db (dropping disabled ((rpc_call body, whatever) ∷ [])) (begin ∷ s.log))
      (sym (end_transaction-Stays db _).log)
      (dropped_or-Follows db (rpc_failure print "privilege_drop_failed") (rpc_call body) _ disabled
        (send begin s))

-- Of what comes over the socket, only a request that is UTF-8 and JSON, cut to 2^20 bytes, reaches
-- the database, and only once the extension is installed: then as the argument of one statement,
-- behind the drop of privileges (unless that is switched off). Anything else sends nothing.
pub handle_rpc_stream-Gated :
    (db : Database) (disabled : Bool) (print : Json → Bytes) (parses : Bytes → Bool) (ready : Bool)
    (incoming : Option Bytes) (s : Session)
    → Gated db disabled parses ready incoming s.log
        (handle_rpc_stream db disabled print parses ready incoming s).0.log
unfolding handle_rpc_stream
handle_rpc_stream-Gated db disabled print parses ready none s = refl
handle_rpc_stream-Gated db disabled print parses ready (some bytes) s = by_tests _ ready refl refl
  where
    body : Bytes
    body = take max_request_bytes bytes

    by_tests :
        (valid installed : Bool)
        → (utf8_from 0 body && parses body) ≡ valid
        → ready ≡ installed
        → Gated db disabled parses ready
            (some bytes)
            s.log
            ((if valid
                then if installed
                  then dashboard_rpc db disabled print body
                  else pure (rpc_failure print "extension_not_installed")
                else pure (rpc_failure print "invalid_json_request"))
              s).0.log
    by_tests false installed v i = inl refl
    by_tests true false v i = inl refl
    by_tests true true v i = inr (record {
      installed = i;
      well_formed = (and_true _ _ v).1;
      decoded = (and_true _ _ v).0;
      confined = dashboard_rpc-Follows db disabled print body s;
    })
