-- ===== src/Web/Main.antt =====
-- src/web.rs `allgres_web_main`: the web worker from its start to the signal that stops it.
pub mod Laws
pub mod Tests
use allgres.Base.{
  Bool, true, false, List, [], ◌∷◌, ◌++◌, Option, none, some, if◌then◌else◌, value_or,
}
use allgres.Bytes.{Bytes, lit}
use allgres.Bytes.Compare.{same}
use allgres.Config.{Environment, configured_http_addr}
use allgres.Web.Auth.{WebConfig}
use allgres.Web.Exposure.{Exposure, accepted, refused, check_exposure}
use allgres.Web.Connection.{Reply}
use allgres.Web.Connection.Slots.{Listener, Accepted, idle, accept, thread_ends, step, ends}

-- What `listener.accept()` gives: a connection, that none waits, or another error. The replies are
-- those of the threads that have ended since the last call; the Boolean says whether a thread can
-- be spawned.
pub data Incoming : Type 0 where
  connection : List Reply → Bool → Incoming
  would_block accept_failed : Incoming

unfoldable pub threads_end : Listener → List Reply → Listener
threads_end l [] = l
threads_end l (reply ∷ replies) = threads_end (step l (ends reply)) replies

abbrev also : Accepted → Listener × List Accepted → Listener × List Accepted
also a o = (o.0, a ∷ o.1)

-- The inner loop: connections are taken until none waits, or an error stops it.
unfoldable pub accept_all : Listener → List Incoming → Listener × List Accepted
accept_all l [] = (l, [])
accept_all l (would_block ∷ later) = (l, [])
accept_all l (accept_failed ∷ later) = (l, [])
accept_all l (connection replies can_spawn ∷ later) =
    let taken : Listener × Accepted = accept (threads_end l replies) can_spawn in
    also taken.1 (accept_all taken.0 later)

abbrev in_addition : List Accepted → Listener × List Accepted → Listener × List Accepted
in_addition answers o = (o.0, answers ++ o.1)

-- The outer loop: a turn for each time that `wait_latch` returns without a signal to stop.
unfoldable pub accept_loop : Listener → List (List Incoming) → Listener × List Accepted
accept_loop l [] = (l, [])
accept_loop l (incoming ∷ later) =
    let taken : Listener × List Accepted = accept_all l incoming in
    in_addition taken.1 (accept_loop taken.0 later)

-- Why the worker ended.
pub data Ending : Type 0 where
  exposed bind_failed nonblocking_failed stopped : Ending

-- What the worker has done: the addresses that it has bound, what became of each connection, and
-- the threads at its end.
pub record Served : Type 0 where
  pub bound : List Bytes
  pub answers : List Accepted
  pub listener : Listener
  pub ending : Ending

abbrev without_service : List Bytes → Ending → Served
without_service bound ending = record {
  bound = bound;
  answers = [];
  listener = idle;
  ending = ending;
}

abbrev var : Environment → Bytes → Bytes
var env key = value_or [] (env key)

abbrev is_one : Option Bytes → Bool
is_one none = false
is_one (some v) = same v (lit "1")

-- The third field, the socket's path, is `rpc_socket_path` of Config: what an exchange over it gives is
-- an argument of Web/Connection.
unfoldable pub web_config : Environment → WebConfig
web_config env = record {
  token = var env (lit "ALLGRES_DASHBOARD_TOKEN");
  mock_enabled = is_one (env (lit "ALLGRES_ENABLE_MOCK"));
}

-- The listener is bound to an address if that can be had, and then made nonblocking.
abbrev serving : Bytes → Listener × List Accepted → Served
serving addr o = record { bound = addr ∷ []; answers = o.1; listener = o.0; ending = stopped }

unfoldable pub listen : Bytes → (Bytes → Bool) → Bool → List (List Incoming) → Served
listen addr can_bind can_unblock turns =
    if can_bind addr
    then if can_unblock
      then serving addr (accept_loop idle turns)
      else without_service (addr ∷ []) nonblocking_failed
    else without_service [] bind_failed

abbrev unless_exposed : Exposure → Served → Served
unless_exposed refused served = without_service [] exposed
unless_exposed accepted served = served

unfoldable pub allgres_web_main :
    Environment → (Bytes → Bool) → Bool → List (List Incoming) → Served
allgres_web_main env can_bind can_unblock turns =
    let addr : Bytes = configured_http_addr env in
    unless_exposed
      (check_exposure addr (web_config env).token (env (lit "ALLGRES_ALLOW_INSECURE_HTTP")))
      (listen addr can_bind can_unblock turns)
