-- ===== src/Web/Main/Tests.antt =====
-- The web worker under some settings.
use allgres.Base.{true, false, List, [], ◌∷◌, none, some, ◌≡◌, refl, if◌then◌else◌}
use allgres.Bytes.{lit}
use allgres.Bytes.Compare.{same, starts_with}
use allgres.Config.{Environment, env_opt, configured_http_addr}
use allgres.Web.Connection.{closed}
use allgres.Web.Connection.Slots.{spawned, spawn_failed, step, accept, thread_ends}
use allgres.Web.Exposure.{
  check_exposure, is_loopback_addr, host_of, before_last_colon, has_colon, trim_start, trim_end,
}
use allgres.Web.Main.{
  Incoming, connection, would_block, accept_failed, threads_end, accept_all, accept_loop, listen,
  web_config, allgres_web_main, exposed,
}
use allgres.Web.Main.Laws.{IsServed, allgres_web_main-IsServed}

-- Settings that open the listener to everybody, without a token and with one.
abbrev open_env : Environment
open_env key = if same key (lit "ALLGRES_HTTP_ADDR") then some (lit "0.0.0.0:8088") else none

abbrev token_env : Environment
token_env key =
    if same key (lit "ALLGRES_DASHBOARD_TOKEN") then some (lit "secret") else open_env key

abbrev one_turn : List (List Incoming)
one_turn =
    (connection [] true ∷ connection (closed ∷ []) false ∷ would_block ∷ connection [] true ∷ [])
    ∷ (connection [] true ∷ accept_failed ∷ [])
    ∷ []

open_refused : (allgres_web_main open_env (λ _. true) true one_turn).ending ≡ exposed
unfolding allgres_web_main listen web_config configured_http_addr env_opt check_exposure same
    is_loopback_addr host_of starts_with before_last_colon has_colon trim_start trim_end accept_loop
    accept_all threads_end step accept thread_ends
open_refused = refl

open_served :
    (allgres_web_main token_env (λ _. true) true one_turn).answers
    ≡ spawned ∷ spawn_failed ∷ spawned ∷ []
unfolding allgres_web_main listen web_config configured_http_addr env_opt check_exposure same
    is_loopback_addr host_of starts_with before_last_colon has_colon trim_start trim_end accept_loop
    accept_all threads_end step accept thread_ends
open_served = refl

allgres_web_main-IsServed_example :
    IsServed token_env (λ _. true) (allgres_web_main token_env (λ _. true) true one_turn)
allgres_web_main-IsServed_example = allgres_web_main-IsServed token_env (λ _. true) true one_turn
