-- ===== src/Worker/Claims/Handed.antt =====
-- A result that is handed back to the database, behind a drop of privileges.
use Prim.Native.String.{String}
use allgres.Base.{Bool, true, false, List, [], ◌∷◌, ◌≡◌, ap, ◌∙◌, if◌then◌else◌, any, arith}
use allgres.Bytes.{Bytes, lit}
use allgres.Bytes.Compare.{same}
use allgres.Json.{bool}
use allgres.Worker.Session.{
  Arg, Statement, begin, query, assume, commit, is_raised, end_transaction,
  end_transaction-unraised, value, Database, Session, returns, Exec, ◌>>=◌, next, pure, send, spi,
  drop_privileges, transaction, is_true, spi-value,
}
use allgres.Worker.Claims.{dropped_or, submit_with}

-- The statements that hand a result back.
abbrev pub complete_sql : String
complete_sql = "SELECT allgres_public.fn_complete_sql($1::uuid, $2, $3, $4, $5, $6)"

abbrev pub complete_function_build : String
complete_function_build = "SELECT allgres_public.fn_complete_function_build($1::uuid, $2, $3)"

abbrev pub complete_procedure_build : String
complete_procedure_build = "SELECT allgres_public.fn_complete_procedure_build($1::uuid, $2, $3)"

abbrev pub complete_function_call : String
complete_function_call = "SELECT allgres_public.fn_complete_function_call($1::uuid, $2, $3, $4)"

abbrev pub complete_procedure_call : String
complete_procedure_call = "SELECT allgres_public.fn_complete_procedure_call($1::uuid, $2, $3, $4)"

abbrev pub complete_outbound : String
complete_outbound = "SELECT allgres_public.fn_complete_outbound($1::uuid, $2, $3)"

abbrev pub complete_oauth : String
complete_oauth = "SELECT allgres_public.fn_complete_oauth($1::uuid, $2, $3)"

abbrev pub complete_agent_embedding : String
complete_agent_embedding = "SELECT allgres_public.fn_complete_agent_embedding($1::uuid, $2, $3)"

abbrev pub complete_provider_probe : String
complete_provider_probe = "SELECT allgres_public.fn_complete_provider_probe($1::uuid, $2, $3)"

abbrev completions : List String
completions =
    complete_sql ∷ complete_function_build ∷ complete_procedure_build ∷ complete_function_call
    ∷ complete_procedure_call ∷ complete_outbound ∷ complete_oauth ∷ complete_agent_embedding
    ∷ complete_provider_probe ∷ []

unfoldable pub is_completion : Bytes → Bool
is_completion sql = any (λ t. same sql (lit t)) completions

-- The database agrees to drop privileges whenever it is asked, and neither a result that is handed
-- back nor a commit raises an ERROR.
pub record TakesResults (db : Database) : Type 0 where
  pub drops : (log : List Statement) → db (assume ∷ log) ≡ value (bool true)
  pub takes :
      (sql : Bytes) (args : List Arg) (log : List Statement)
      → is_completion sql ≡ true
      → is_raised (db (query sql args ∷ log)) ≡ false
  pub commits : (log : List Statement) → is_raised (db (commit ∷ log)) ≡ false

-- The session behind a result that is handed back.
abbrev pub handed_back : Bytes → List Arg → Session → Session
handed_back sql args s = send (query sql args) (send assume (send begin s))

spi_taken :
    (db : Database) (st : Statement) (s : Session)
    → is_raised (db (st ∷ s.log)) ≡ false
    → next (λ r. pure tt) (spi db st s) ≡ (send st s, returns tt)
unfolding spi
spi_taken db st s h = ground arith

pub submit_with-handed_back :
    (db : Database) (t : TakesResults db) (sql : String) (args : List Arg) (s : Session)
    → is_completion (lit sql) ≡ true
    → submit_with db false sql args s ≡ (handed_back (lit sql) args s, returns tt)
unfolding submit_with dropped_or drop_privileges transaction
submit_with-handed_back db t sql args s c =
    ap (end_transaction db) (
      ap (next if_dropped) (
        ap (next (λ r. pure (is_true r)))
          (spi-value db assume (send begin s) (t.drops (begin ∷ s.log))))
      ∙ spi_taken db (query (lit sql) args) (send assume (send begin s))
          (t.takes (lit sql) args (assume ∷ begin ∷ s.log) c))
    ∙ end_transaction-unraised db (handed_back (lit sql) args s) tt (t.commits _)
  where
    if_dropped : Bool → Exec Unit
    if_dropped b = if b then spi db (query (lit sql) args) >>= (λ r. pure tt) else pure tt
