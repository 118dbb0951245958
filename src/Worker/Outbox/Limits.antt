-- ===== src/Worker/Outbox/Limits.antt =====
-- How many calls the database claims for the pool.
use Prim.Native.String.{String}
use allgres.Base.{ℕ, zero, suc, ◌≤◌, Bool, Option, List, [], ◌∷◌, ◌≡◌, refl, sym, subst, arith}
use allgres.Bytes.{lit}
use allgres.Bytes.Compare.{same}
use allgres.Json.{Json, Items, nil, cons, get, lookup_field}
use allgres.Worker.Session.{
  int_arg, Statement, query, Answer, value, nothing, failed, raised, Database, Session, Result,
  Exec, ◌>>=◌, pure, spi, begin, commit, concluded, committed, end_transaction, returns, unwinds,
  Outcome, send, transaction, drop_privileges,
}
use allgres.Worker.Execute.Order.{answered, sent, spi-answered}
use allgres.Worker.Claims.{
  no_jobs, value_of, watch_and_dispatch, dropped_or, claim, dispatch_and_claim,
}
use allgres.Worker.Yields.{Good, Yields, bind_Yields, pure_Yields, anything, if_Yields}
use allgres.Worker.Pumps.{jobs_in}
use allgres.Worker.Outbox.{
  OutboundQueue, outbound, oauth, agent_embedding, provider_probe, claim_for,
}

abbrev pub count : Items → ℕ
count nil = 0
count (cons v vs) = suc (count vs)

abbrev pub calls_of : Json → ℕ
calls_of claimed = count (jobs_in "calls" claimed)

abbrev pub claim_sql : OutboundQueue → String
claim_sql outbound = "SELECT allgres_public.fn_claim_outbound($1)"
claim_sql oauth = "SELECT allgres_public.fn_claim_oauth($1)"
claim_sql agent_embedding = "SELECT allgres_public.fn_claim_agent_embedding($1)"
claim_sql provider_probe = "SELECT allgres_public.fn_claim_provider_probe($1)"

-- The database claims no more calls than it is asked for.
pub record RespectsLimits (db : Database) : Type 0 where
  pub respects :
      (q : OutboundQueue) (limit : ℕ) (log : List Statement) (v : Json)
      → db (query (lit (claim_sql q)) (int_arg limit ∷ []) ∷ log) ≡ value v
      → calls_of v ≤ limit

module _ (db : Database) (respects : RespectsLimits db) where
  no_calls : calls_of (no_jobs "calls") ≡ 0
  unfolding get lookup_field same
  no_calls = refl

  spi_claim_Yields :
      (q : OutboundQueue) (limit : ℕ)
      → Yields
          (spi db (query (lit (claim_sql q)) (int_arg limit ∷ [])))
          (λ r. calls_of (value_of (no_jobs "calls") r) ≤ limit)
  spi_claim_Yields q limit = record {
    yields = λ s.
        subst (Good (λ r. calls_of (value_of (no_jobs "calls") r) ≤ limit))
          (sym (spi-answered db (query (lit (claim_sql q)) (int_arg limit ∷ [])) s))
          (by_answer s (db (query (lit (claim_sql q)) (int_arg limit ∷ []) ∷ s.log)) refl);
  }
    where
      by_answer :
          (s : Session) (a : Answer)
          → db (query (lit (claim_sql q)) (int_arg limit ∷ []) ∷ s.log) ≡ a
          → Good
              (λ r. calls_of (value_of (no_jobs "calls") r) ≤ limit)
              (answered (sent (query (lit (claim_sql q)) (int_arg limit ∷ [])) s) a)
      by_answer s (value v) e = respects.respects q limit s.log v e
      by_answer s nothing e = omega (arith, no_calls)
      by_answer s (failed x) e = omega (arith, no_calls)
      by_answer s (raised x) e = tt

  dropped_or_Yields :
      {A : Type 0} {Q : A → Type 0} (disabled : Bool) (refused : A) {m : Exec A}
      → Q refused
      → Yields m Q
      → Yields (dropped_or db disabled refused m) Q
  unfolding dropped_or
  dropped_or_Yields disabled refused q h =
      bind_Yields (anything (drop_privileges db disabled))
        (λ b _. if_Yields b h (pure_Yields refused q))

  transaction_Yields :
      {A : Type 0} {Q : A → Type 0} {m : Exec A} → Yields m Q → Yields (transaction db m) Q
  unfolding transaction end_transaction
  transaction_Yields {A = A} {Q = Q} {m = m} h = record {
    yields = λ s. after (m (send begin s)) (h.yields (send begin s));
  }
    where
      by_answer : (s : Session) (a : A) (x : Answer) → Q a → Good Q (concluded s a x)
      by_answer s a (raised e) q = tt
      by_answer s a (value v) q = q
      by_answer s a nothing q = q
      by_answer s a (failed e) q = q

      by_depth : (s : Session) (a : A) (n : ℕ) → Q a → Good Q (committed db n s a)
      by_depth s a zero q = by_answer s a (db (commit ∷ s.log)) q
      by_depth s a (suc n) q = q

      after : (o : Session × Outcome A) → Good Q o → Good Q (end_transaction db o)
      after (s, returns a) q = by_depth s a s.depth q
      after (s, unwinds e) q = q

  in_claim :
      (disabled : Bool) (q : OutboundQueue) (limit : ℕ) {m : Exec (Result (Option Json))}
      → Yields m (λ r. calls_of (value_of (no_jobs "calls") r) ≤ limit)
      → Yields
          (transaction db (
            dropped_or db disabled
              (no_jobs "calls")
              (m >>= (λ r. pure (value_of (no_jobs "calls") r)))))
          (λ v. calls_of v ≤ limit)
  in_claim disabled q limit h = transaction_Yields (
      dropped_or_Yields disabled (no_jobs "calls") (omega (arith, no_calls))
        (bind_Yields h (λ r b. pure_Yields (value_of (no_jobs "calls") r) b)))

  pub claim_for_Yields :
      (disabled : Bool) (q : OutboundQueue) (limit : ℕ)
      → Yields (claim_for db disabled q limit) (λ v. calls_of v ≤ limit)
  unfolding claim dispatch_and_claim
  claim_for_Yields disabled outbound limit =
      in_claim disabled outbound limit
        (bind_Yields (anything (watch_and_dispatch db)) (λ _ _. spi_claim_Yields outbound limit))
  claim_for_Yields disabled oauth limit =
      in_claim disabled oauth limit (spi_claim_Yields oauth limit)
  claim_for_Yields disabled agent_embedding limit =
      in_claim disabled agent_embedding limit (spi_claim_Yields agent_embedding limit)
  claim_for_Yields disabled provider_probe limit =
      in_claim disabled provider_probe limit (spi_claim_Yields provider_probe limit)
