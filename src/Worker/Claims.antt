-- ===== src/Worker/Claims.antt =====
-- src/runtime_worker.rs, src/sandbox.rs, src/function_exec.rs, src/procedure_exec.rs: what the
-- worker claims from the queues in the database and hands back to them, each in a transaction that
-- first drops privileges.
pub mod Sanitized
pub mod Handed
use Prim.Native.String.{String}
use allgres.Base.{ℕ, ◌*◌, Bool, true, false, Option, some, List, [], ◌∷◌, if◌then◌else◌, is_empty}
use allgres.Bytes.{Bytes, lit}
use allgres.Json.{Json, bool, num, str, arr, obj, Items, nil, cons, end, entry}
use allgres.Utf8.{truncate_utf8}
use allgres.Utf8.WithoutNul.{without_nul}
use allgres.Worker.SqlOutcome.{sql_outcome}
use allgres.Worker.Session.{
  check_installed, Arg, text_arg, int_arg, bool_arg, json_arg, texts_arg, absent, query, plain,
  Database, Result, ok, err, Exec, ◌>>=◌, pure, spi, drop_privileges, transaction, is_true,
}

abbrev pub max_response_bytes : ℕ
max_response_bytes = 200000

-- In seconds.
abbrev pub http_timeout : ℕ
http_timeout = 45

-- `truncate_utf8(&body.replace('\0', ""), MAX_RESPONSE_BYTES)`
unfoldable pub sanitized : Bytes → Bytes
sanitized body = truncate_utf8 (without_nul body) max_response_bytes

-- `json!({ "count": 0, key: [] })`
abbrev pub no_jobs : String → Json
no_jobs key = obj (entry "count" (num (lit "0")) (entry key (arr nil) end))

-- `.ok().flatten().unwrap_or(missing)`
abbrev pub value_of : Json → Result (Option Json) → Json
value_of missing (ok (some v)) = v
value_of missing _ = missing

-- The strings of an array, none of anything else.
abbrev strings_in : Items → List Bytes
strings_in nil = []
strings_in (cons (str s) vs) = s ∷ strings_in vs
strings_in (cons _ vs) = strings_in vs

abbrev strings_of : Result (Option Json) → List Bytes
strings_of (ok (some (arr vs))) = strings_in vs
strings_of _ = []

-- `json!({"ok": false, "error": e}).to_string()`
abbrev pub rpc_failure : (Json → Bytes) → String → Bytes
rpc_failure print e = print (obj (entry "ok" (bool false) (entry "error" (str (lit e)) end)))

abbrev pub rpc_reply : (Json → Bytes) → Result (Option Json) → Bytes
rpc_reply print (ok (some v)) = print v
rpc_reply print _ = rpc_failure print "empty_rpc_result"

module _ (db : Database) where
  -- `extension_is_installed`
  unfoldable pub extension_is_installed : Exec Bool
  extension_is_installed =
      transaction db (spi db (plain check_installed) >>= (λ r. pure (is_true r)))

  -- The watchdog, and the dispatch of tasks.
  unfoldable pub watch_and_dispatch : Exec (Result (Option Json))
  watch_and_dispatch =
      spi db (query (lit "SELECT allgres_public.fn_watchdog($1)") (int_arg (http_timeout * 2) ∷ []))
      >>= (λ _. spi db (plain (lit "SELECT allgres_public.fn_dispatch_tasks()")))

module _ (db : Database) (disabled : Bool) where
  -- `if !drop_privileges() { return refused; }`
  unfoldable pub dropped_or : {A : Type 0} → A → Exec A → Exec A
  dropped_or refused m = drop_privileges db disabled >>= (λ b. if b then m else pure refused)

  unfoldable pub claim : String → String → ℕ → Exec Json
  claim key sql limit = transaction db (
      dropped_or (no_jobs key)
        (spi db (query (lit sql) (int_arg limit ∷ [])) >>= (λ r. pure (value_of (no_jobs key) r))))

  -- A result is handed back; an error is only logged.
  unfoldable pub submit_with : String → List Arg → Exec Unit
  submit_with sql args =
      transaction db (dropped_or tt (spi db (query (lit sql) args) >>= (λ r. pure tt)))

  abbrev pub claim_sql_jobs : ℕ → Exec Json
  claim_sql_jobs = claim "calls" "SELECT allgres_public.fn_claim_sql($1)"

  abbrev pub claim_function_build_jobs : ℕ → Exec Json
  claim_function_build_jobs = claim "builds" "SELECT allgres_public.fn_claim_function_builds($1)"

  abbrev pub claim_function_call_jobs : ℕ → Exec Json
  claim_function_call_jobs = claim "calls" "SELECT allgres_public.fn_claim_function_calls($1)"

  abbrev pub claim_procedure_build_jobs : ℕ → Exec Json
  claim_procedure_build_jobs = claim "builds" "SELECT allgres_public.fn_claim_procedure_builds($1)"

  abbrev pub claim_procedure_call_jobs : ℕ → Exec Json
  claim_procedure_call_jobs = claim "calls" "SELECT allgres_public.fn_claim_procedure_calls($1)"

  abbrev pub claim_oauth_jobs : ℕ → Exec Json
  claim_oauth_jobs = claim "calls" "SELECT allgres_public.fn_claim_oauth($1)"

  abbrev pub claim_agent_embedding_jobs : ℕ → Exec Json
  claim_agent_embedding_jobs = claim "calls" "SELECT allgres_public.fn_claim_agent_embedding($1)"

  abbrev pub claim_provider_probe_jobs : ℕ → Exec Json
  claim_provider_probe_jobs = claim "calls" "SELECT allgres_public.fn_claim_provider_probe($1)"

  -- The claim follows although the watchdog or the dispatch fails.
  unfoldable pub dispatch_and_claim : ℕ → Exec Json
  dispatch_and_claim limit = transaction db (
      dropped_or (no_jobs "calls") (
        watch_and_dispatch db
        >>= (λ _.
            spi db (query (lit "SELECT allgres_public.fn_claim_outbound($1)") (int_arg limit ∷ [])))
        >>= (λ r. pure (value_of (no_jobs "calls") r))))

  -- The calls of these that the database has given up; nothing is sent without any.
  unfoldable pub lost_outbound : List Bytes → Exec (List Bytes)
  lost_outbound ids =
      if is_empty ids
      then pure []
      else transaction db (
          dropped_or [] (
            spi db (
              query
                (lit "SELECT to_jsonb(allgres_public.fn_check_lost_outbound($1::text[]::uuid[]))")
                (texts_arg ids ∷ []))
            >>= (λ r. pure (strings_of r))))

  -- `print` writes a JSON value.
  unfoldable pub dashboard_rpc : (Json → Bytes) → Bytes → Exec Bytes
  dashboard_rpc print request = transaction db (
      dropped_or (rpc_failure print "privilege_drop_failed") (
        spi db (query (lit "SELECT allgres.dashboard_rpc($1::jsonb)") (text_arg request ∷ []))
        >>= (λ r. pure (rpc_reply print r))))

  -- How each of the four queues of outbound calls takes a response.
  abbrev pub submit_response : String → Bytes → ℕ → Bytes → Exec Unit
  submit_response sql call_id status body =
      submit_with sql (text_arg call_id ∷ int_arg status ∷ text_arg (sanitized body) ∷ [])

  abbrev pub submit_http_result : Bytes → ℕ → Bytes → Exec Unit
  submit_http_result =
      submit_response "SELECT allgres_public.fn_complete_outbound($1::uuid, $2, $3)"

  abbrev pub submit_oauth_result : Bytes → ℕ → Bytes → Exec Unit
  submit_oauth_result = submit_response "SELECT allgres_public.fn_complete_oauth($1::uuid, $2, $3)"

  abbrev pub submit_agent_embedding_result : Bytes → ℕ → Bytes → Exec Unit
  submit_agent_embedding_result =
      submit_response "SELECT allgres_public.fn_complete_agent_embedding($1::uuid, $2, $3)"

  abbrev pub submit_provider_probe_result : Bytes → ℕ → Bytes → Exec Unit
  submit_provider_probe_result =
      submit_response "SELECT allgres_public.fn_complete_provider_probe($1::uuid, $2, $3)"

  abbrev pub submit_sql_result : (Bytes → Option ℕ) → Bytes → Result Json → Exec Unit
  submit_sql_result to_i64 call_id outcome =
      submit_with "SELECT allgres_public.fn_complete_sql($1::uuid, $2, $3, $4, $5, $6)"
        (text_arg call_id ∷ sql_outcome to_i64 outcome)

  -- The outcome of a build: whether it went well, and the error.
  abbrev pub submit_build : String → Bytes → Result Json → Exec Unit
  submit_build sql id (ok v) = submit_with sql (text_arg id ∷ bool_arg true ∷ absent ∷ [])
  submit_build sql id (err e) = submit_with sql (text_arg id ∷ bool_arg false ∷ text_arg e ∷ [])

  abbrev pub submit_function_build_result : Bytes → Result Json → Exec Unit
  submit_function_build_result =
      submit_build "SELECT allgres_public.fn_complete_function_build($1::uuid, $2, $3)"

  abbrev pub submit_procedure_build_result : Bytes → Result Json → Exec Unit
  submit_procedure_build_result =
      submit_build "SELECT allgres_public.fn_complete_procedure_build($1::uuid, $2, $3)"

  -- The outcome of a call: whether it went well, its value, and the error.
  abbrev pub submit_call : String → Bytes → Result Json → Exec Unit
  submit_call sql id (ok v) =
      submit_with sql (text_arg id ∷ bool_arg true ∷ json_arg v ∷ absent ∷ [])
  submit_call sql id (err e) =
      submit_with sql (text_arg id ∷ bool_arg false ∷ absent ∷ text_arg e ∷ [])

  abbrev pub submit_function_call_result : Bytes → Result Json → Exec Unit
  submit_function_call_result =
      submit_call "SELECT allgres_public.fn_complete_function_call($1::uuid, $2, $3, $4)"

  abbrev pub submit_procedure_call_result : Bytes → Result Json → Exec Unit
  submit_procedure_call_result =
      submit_call "SELECT allgres_public.fn_complete_procedure_call($1::uuid, $2, $3, $4)"
