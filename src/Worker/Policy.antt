-- ===== src/Worker/Policy.antt =====
-- What src/runtime_worker.rs, src/sandbox.rs, src/function_exec.rs and src/procedure_exec.rs may
-- send to the database: a closed list of statements, each with what must stand before it in its
-- transaction.
use Prim.Native.String.{String}
use allgres.Base.{Bool, true, false, ◌&&◌, ◌||◌, List, [], ◌∷◌, ◌++◌, ◌≡◌, refl, ◌⊎◌, arith, any}
use allgres.Bytes.{Bytes, lit}
use allgres.Bytes.Compare.{same}
use allgres.Bytes.Search.{contains}
use allgres.Json.{Json}
use allgres.Worker.Ident.{valid_sql_ident, valid_pg_role, delimiter, enclosed}
use allgres.Worker.Session.{
  Arg, text_arg, json_arg, Statement, begin, commit, query, plain, assume, check_installed,
  Database,
}
use allgres.Worker.Execute.Order.{says_true, not_failed}

-- The statements that the worker sends in its own name, their values always as arguments.
abbrev own_texts : List String
own_texts =
    "SELECT allgres_public.fn_watchdog($1)" ∷ "SELECT allgres_public.fn_dispatch_tasks()"
    ∷ "SELECT allgres_public.fn_claim_outbound($1)" ∷ "SELECT allgres_public.fn_claim_sql($1)"
    ∷ "SELECT allgres_public.fn_claim_function_builds($1)"
    ∷ "SELECT allgres_public.fn_claim_function_calls($1)"
    ∷ "SELECT allgres_public.fn_claim_procedure_builds($1)"
    ∷ "SELECT allgres_public.fn_claim_procedure_calls($1)"
    ∷ "SELECT allgres_public.fn_claim_oauth($1)"
    ∷ "SELECT allgres_public.fn_claim_agent_embedding($1)"
    ∷ "SELECT allgres_public.fn_claim_provider_probe($1)"
    ∷ "SELECT allgres_public.fn_complete_outbound($1::uuid, $2, $3)"
    ∷ "SELECT allgres_public.fn_complete_oauth($1::uuid, $2, $3)"
    ∷ "SELECT allgres_public.fn_complete_agent_embedding($1::uuid, $2, $3)"
    ∷ "SELECT allgres_public.fn_complete_provider_probe($1::uuid, $2, $3)"
    ∷ "SELECT allgres_public.fn_complete_sql($1::uuid, $2, $3, $4, $5, $6)"
    ∷ "SELECT allgres_public.fn_complete_function_build($1::uuid, $2, $3)"
    ∷ "SELECT allgres_public.fn_complete_procedure_build($1::uuid, $2, $3)"
    ∷ "SELECT allgres_public.fn_complete_function_call($1::uuid, $2, $3, $4)"
    ∷ "SELECT allgres_public.fn_complete_procedure_call($1::uuid, $2, $3, $4)"
    ∷ "SELECT to_jsonb(allgres_public.fn_check_lost_outbound($1::text[]::uuid[]))"
    ∷ "SELECT allgres.dashboard_rpc($1::jsonb)" ∷ []

unfoldable pub is_own : Bytes → Bool
is_own sql = any (λ t. same sql (lit t)) own_texts

or_true : (a : Bool) {b : Bool} → b ≡ true → (a || b) ≡ true
or_true a h = ground arith

-- A role that an agent may have: the shared one, or one of the form of an agent's.
abbrev pub IsAgentRole : Bytes → Type 0
IsAgentRole role = (role ≡ lit "sandbox") ⊎ (valid_pg_role role ≡ true)

abbrev role_setting : Bytes → Statement
role_setting role = plain (lit "SET LOCAL ROLE " ++ role)

abbrev path_setting : Statement
path_setting = plain (lit "SET LOCAL search_path = pg_temp")

abbrev read_only_setting : Statement
read_only_setting = plain (lit "SET LOCAL transaction_read_only = on")

abbrev short_timeout_setting : Statement
short_timeout_setting = plain (lit "SET LOCAL statement_timeout = '5000ms'")

abbrev long_timeout_setting : Statement
long_timeout_setting = plain (lit "SET LOCAL statement_timeout = '60000ms'")

abbrev agent_setting : Bytes → Statement
agent_setting agent_id =
    query (lit "SELECT set_config('allgres.agent_id', $1, true)") (text_arg agent_id ∷ [])

abbrev builder_setting : Statement
builder_setting = plain (lit "SET LOCAL ROLE allgres_function_admin")

-- What confines a transaction. Only a role is text that comes from outside.
pub data IsSetting : Statement → Type 0 where
  agent_role : (role : Bytes) → IsAgentRole role → IsSetting (role_setting role)
  builder_role : IsSetting builder_setting
  empty_path : IsSetting path_setting
  read_only : IsSetting read_only_setting
  short_timeout : IsSetting short_timeout_setting
  long_timeout : IsSetting long_timeout_setting
  agent_name : (agent_id : Bytes) → IsSetting (agent_setting agent_id)

-- A body between two delimiters, which it does not hold itself.
pub record IsQuoted (quote : Bytes) : Type 0 where
  pub tag : Bytes
  pub body : Bytes
  pub between : quote ≡ delimiter tag ++ enclosed tag body
  pub closed : contains (delimiter tag) body ≡ false

module _ (db : Database) where
  -- Within the transaction that stands open behind the log, privileges have been dropped.
  unfoldable pub is_dropped : List Statement → Bool
  is_dropped [] = false
  is_dropped (begin ∷ log) = false
  is_dropped (commit ∷ log) = false
  is_dropped (query sql args ∷ log) =
      (same sql (lit "SELECT allgres.assume_worker_role()")
        && says_true (db (query sql args ∷ log)))
      || is_dropped log

  -- The block of a transaction consists of the drop of privileges and of these settings, the last
  -- first, and none of them has failed.
  pub data Confined : List Statement → List Statement → Type 0 where
    dropped :
        {log : List Statement}
        → says_true (db (assume ∷ begin ∷ log)) ≡ true
        → Confined [] (assume ∷ begin ∷ log)
    set :
        {sql : Bytes} {args : List Arg} {sts log : List Statement}
        → Confined sts log
        → not_failed (db (query sql args ∷ log)) ≡ true
        → Confined (query sql args ∷ sts) (query sql args ∷ log)

  -- What may be sent behind a log.
  pub data Allowed (log : List Statement) : Statement → Type 0 where
    starts : Allowed log begin
    asks : Allowed log (plain check_installed)
    assumes : Allowed log assume
    own :
        {sql : Bytes} {args : List Arg}
        → is_own sql ≡ true
        → is_dropped log ≡ true
        → Allowed log (query sql args)
    sets :
        {st : Statement} {sts : List Statement} → IsSetting st → Confined sts log → Allowed log st
    runs_sql :
        (agent_id role sql : Bytes)
        → IsAgentRole role
        → Confined
            (agent_setting agent_id
              ∷ short_timeout_setting
              ∷ read_only_setting
              ∷ path_setting
              ∷ role_setting role
              ∷ [])
            log
        → Allowed log
            (query (lit "SELECT allgres_public.fn_run_sandboxed_sql($1)") (text_arg sql ∷ []))
    calls_function :
        (sql_ident role : Bytes) (args : Json)
        → valid_sql_ident sql_ident (lit "fn_") ≡ true
        → IsAgentRole role
        → Confined (short_timeout_setting ∷ path_setting ∷ role_setting role ∷ []) log
        → Allowed log (
            query
              (lit "SELECT allgres_functions." ++ (sql_ident ++ lit "($1::jsonb)"))
              (json_arg args ∷ []))
    calls_procedure :
        (sql_ident role : Bytes) (args : Json)
        → valid_sql_ident sql_ident (lit "proc_") ≡ true
        → IsAgentRole role
        → Confined (long_timeout_setting ∷ path_setting ∷ role_setting role ∷ []) log
        → Allowed log (
            query
              (lit "CALL allgres_functions." ++ (sql_ident ++ lit "($1::jsonb, '{}'::jsonb)"))
              (json_arg args ∷ []))
    builds_function :
        (sql_ident quote : Bytes)
        → valid_sql_ident sql_ident (lit "fn_") ≡ true
        → IsQuoted quote
        → Confined (builder_setting ∷ []) log
        → Allowed log (
            plain (
              lit "CREATE OR REPLACE FUNCTION allgres_functions."
              ++ (sql_ident
                  ++ (lit "(p_args jsonb) RETURNS jsonb LANGUAGE plpgsql SECURITY INVOKER AS "
                      ++ (quote ++ lit ";")))))
    builds_procedure :
        (sql_ident quote : Bytes)
        → valid_sql_ident sql_ident (lit "proc_") ≡ true
        → IsQuoted quote
        → Confined (builder_setting ∷ []) log
        → Allowed log (
            plain (
              lit "CREATE OR REPLACE PROCEDURE allgres_functions."
              ++ (sql_ident
                  ++ (lit
                        "(p_args jsonb, INOUT p_result jsonb) LANGUAGE plpgsql SECURITY INVOKER AS "
                      ++ (quote ++ lit ";")))))

  -- The log has grown by statements each of which was allowed.
  pub data Monitored (old : List Statement) : List Statement → Type 0 where
    unchanged : Monitored old old
    sent :
        {st : Statement} {log : List Statement}
        → Monitored old log
        → Allowed log st
        → Monitored old (st ∷ log)

  pub Monitored-trans : {a b c : List Statement} → Monitored a b → Monitored b c → Monitored a c
  Monitored-trans h unchanged = h
  Monitored-trans h (sent k x) = sent (Monitored-trans h k) x

  pub Confined-is_dropped : {sts log : List Statement} → Confined sts log → is_dropped log ≡ true
  unfolding is_dropped same
  Confined-is_dropped (dropped h) = ground arith
  Confined-is_dropped (set c h) = ground (arith, Confined-is_dropped c)

  -- The statements that may be sent before privileges are dropped.
  abbrev is_exempt : Statement → Bool
  is_exempt begin = true
  is_exempt commit = true
  is_exempt (query sql args) =
      same sql (lit "SELECT allgres.assume_worker_role()") || same sql check_installed

  -- Every statement but those has been sent with privileges dropped.
  unfoldable pub is_guarded : List Statement → Bool
  is_guarded [] = true
  is_guarded (st ∷ log) = (is_exempt st || is_dropped log) && is_guarded log

  Allowed-guarded :
      {log : List Statement} (st : Statement)
      → Allowed log st
      → (is_exempt st || is_dropped log) ≡ true
  unfolding same
  Allowed-guarded _ starts = refl
  Allowed-guarded _ asks = refl
  Allowed-guarded _ assumes = refl
  Allowed-guarded st (own x d) = or_true (is_exempt st) d
  Allowed-guarded st (sets x c) = or_true (is_exempt st) (Confined-is_dropped c)
  Allowed-guarded st (runs_sql a r q u c) = or_true (is_exempt st) (Confined-is_dropped c)
  Allowed-guarded st (calls_function i r a v u c) = or_true (is_exempt st) (Confined-is_dropped c)
  Allowed-guarded st (calls_procedure i r a v u c) = or_true (is_exempt st) (Confined-is_dropped c)
  Allowed-guarded st (builds_function i q v k c) = or_true (is_exempt st) (Confined-is_dropped c)
  Allowed-guarded st (builds_procedure i q v k c) = or_true (is_exempt st) (Confined-is_dropped c)

  pub Monitored-guarded :
      {old log : List Statement} → Monitored old log → is_guarded old ≡ true → is_guarded log ≡ true
  unfolding is_guarded
  Monitored-guarded unchanged g = g
  Monitored-guarded (sent {st = st} h x) g =
      ground (arith, Allowed-guarded st x, Monitored-guarded h g)
