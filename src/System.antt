-- ===== src/System.antt =====
-- The two workers together: what a connection to the web worker of src/web.rs makes the runtime
-- worker of src/runtime_worker.rs and src/rpc.rs send to the database.
pub mod Answers
pub mod EndToEnd
pub mod Tests
use allgres.Base.{
  Bool, true, false, Option, none, some, List, [], ◌∷◌, ◌≡◌, ◌≢◌, ◌⊎◌, inl, inr, refl, sym, subst,
  arith, Key,
}
use allgres.Bytes.{Bytes}
use allgres.Json.{Json}
use allgres.Http.{HttpRequest, read_http_request}
use allgres.Web.Auth.{WebConfig}
use allgres.Web.World.{World}
use allgres.Web.Connection.{Server, handle_web_connection}
use allgres.Web.Connection.Gates.{NotLimited, Passed, handle_web_connection-calls}
use allgres.Worker.Session.{
  Statement, Database, Session, Outcome, returns, unwinds, ◌>>=◌, next, pure, Exec,
}
use allgres.Worker.Rpc.{handle_rpc_stream, serve}
use allgres.Worker.Rpc.Gate.{IsLetThrough, handle_rpc_stream-Gated}

-- What `rpc` writes to the socket, `req.to_string()`, for each request in turn.
abbrev written : World → List Json → List (Option Bytes)
written w [] = []
written w (req ∷ reqs) = some (w.print_json req) ∷ written w reqs

pure-session :
    {A B : Type 0} (f : A → B) (o : Session × Outcome A) → (next (λ a. pure (f a)) o).0 ≡ o.0
pure-session f (s, returns a) = refl
pure-session f (s, unwinds e) = refl

module _ (db : Database) (disabled : Bool) (parses : Bytes → Bool) (ready : Bool) (w : World) where
  -- How the log grows by requests, in their order: by nothing or by the one statement that carries
  -- the request, as it was written. Behind an ERROR no further request is served.
  pub data Delivered : List Json → List Statement → List Statement → Type 0 where
    served : {log : List Statement} → Delivered [] log log
    ignored :
        {req : Json} {reqs : List Json} {log log' : List Statement}
        → Delivered reqs log log'
        → Delivered (req ∷ reqs) log log'
    passed_on :
        {req : Json} {reqs : List Json} {log log' log'' : List Statement}
        → IsLetThrough db disabled parses ready (w.print_json req) log log'
        → Delivered reqs log' log''
        → Delivered (req ∷ reqs) log log''

  unserved : (reqs : List Json) {log : List Statement} → Delivered reqs log log
  unserved [] = served
  unserved (req ∷ reqs) = ignored (unserved reqs)

  then_Delivered :
      {req : Json} {reqs : List Json} {log log' log'' : List Statement}
      → (log' ≡ log) ⊎ IsLetThrough db disabled parses ready (w.print_json req) log log'
      → Delivered reqs log' log''
      → Delivered (req ∷ reqs) log log''
  then_Delivered {reqs = reqs} {log'' = log''} (inl same) rest =
      ignored (subst (λ l. Delivered reqs l log'') same rest)
  then_Delivered (inr through) rest = passed_on through rest

  abbrev serve_written : List Json → Exec (List Bytes)
  serve_written reqs = serve db disabled w.print_json parses ready (written w reqs)

  serve-Delivered :
      (reqs : List Json) (s : Session) → Delivered reqs s.log (serve_written reqs s).0.log
  unfolding serve
  serve-Delivered [] s = served
  serve-Delivered (req ∷ reqs) s =
      by_reply (handle_rpc_stream db disabled w.print_json parses ready (some (w.print_json req)) s)
        (handle_rpc_stream-Gated db disabled w.print_json parses ready (some (w.print_json req)) s)
        (λ s'. serve-Delivered reqs s')
    where
      by_reply :
          (o : Session × Outcome Bytes)
          → (o.0.log ≡ s.log)
            ⊎ IsLetThrough db disabled parses ready (w.print_json req) s.log o.0.log
          → ((s' : Session) → Delivered reqs s'.log (serve_written reqs s').0.log)
          → Delivered
              (req ∷ reqs)
              s.log
              (next (λ reply. serve_written reqs >>= (λ replies. pure (reply ∷ replies))) o).0.log
      by_reply (s', returns reply) gated rest = then_Delivered gated (
          subst (λ t. Delivered reqs s'.log t.log)
            (sym (pure-session (◌∷◌ reply) (serve_written reqs s'))) (rest s'))
      by_reply (s', unwinds e) gated rest = then_Delivered gated (unserved reqs)

  module _ {K : Type 0} ⦃e : Key K⦄ (cfg : WebConfig) where
    -- The session with the database behind one connection to the web worker.
    pub session_behind : Server K → Option K → Session → Session
    session_behind server ip s = (serve_written (handle_web_connection w cfg server ip).calls s).0

    -- What the database is sent for a connection, and only behind every gate of the web worker.
    pub record IsRelayed (server : Server K) (ip : Option K) (log log' : List Statement)
        : Type 0 where
      pub delivered : Delivered (handle_web_connection w cfg server ip).calls log log'
      pub gated :
          (log' ≡ log)
          ⊎ ((r : HttpRequest) × (read_http_request w.connection w.started ≡ some r)
              × NotLimited w cfg server.windows ip
              × Passed w cfg server ip r)

    -- For a connection to the web worker the runtime worker sends the database nothing, unless the
    -- connection's request has passed every gate of the web worker; and then, for each request that
    -- the web worker makes of it, in their order, nothing or one statement with the request as it
    -- was written, cut to 2^20 bytes, which is UTF-8 and JSON, behind the drop of privileges (unless
    -- that is switched off); and none behind an ERROR.
    pub session_behind-IsRelayed :
        (server : Server K) (ip : Option K) (s : Session)
        → IsRelayed server ip s.log (session_behind server ip s).log
    unfolding session_behind serve
    session_behind-IsRelayed server ip s = record {
      delivered = serve-Delivered (handle_web_connection w cfg server ip).calls s;
      gated = by_calls (handle_web_connection w cfg server ip).calls refl;
    }
      where
        by_calls :
            (calls : List Json)
            → (handle_web_connection w cfg server ip).calls ≡ calls
            → ((serve_written calls s).0.log ≡ s.log)
              ⊎ ((r : HttpRequest) × (read_http_request w.connection w.started ≡ some r)
                  × NotLimited w cfg server.windows ip
                  × Passed w cfg server ip r)
        by_calls [] none_made = inl refl
        by_calls (req ∷ reqs) made =
            inr (handle_web_connection-calls w cfg server ip (λ h. ground (arith, made, h)))
