-- ===== src/Config/Tests.antt =====
-- The settings of an empty environment, and a directory that others could read.
use allgres.Base.{true, some, none, ◌≡◌, refl}
use allgres.Bytes.{lit}
use allgres.Utf8.{utf8_from, char_len}
use allgres.Config.{
  Environment, env_opt, configured_database, data_directory, socket_dir, rpc_socket_path, directory,
  socket, Files, System, ok, ensure_socket_dir, bind_rpc_socket,
}
use allgres.Config.Private.{IsKept, bind_rpc_socket-IsKept}

abbrev empty_env : Environment
empty_env key = none

default_database : configured_database empty_env ≡ lit "postgres"
unfolding configured_database env_opt
default_database = refl

default_socket :
    rpc_socket_path empty_env (some (lit "/data/")) (lit "/tmp") ≡ lit "/data/allgres/runtime.sock"
unfolding rpc_socket_path socket_dir data_directory env_opt utf8_from char_len
default_socket = refl

abbrev able : System
able = record {
  can_create = true;
  can_stat = true;
  can_tighten = true;
  can_remove = true;
  can_bind = true;
  can_restrict = true;
  created_mode = 448;
  bound_mode = 493;
}

-- Modes 0755 and 0777.
abbrev open_files : Files
open_files = record { dir = directory 493; sock = socket 511 }

bind_open :
    bind_rpc_socket able open_files ≡ (record { dir = directory 448; sock = socket 384 }, ok)
unfolding bind_rpc_socket ensure_socket_dir
bind_open = refl

bind_rpc_socket-IsKept_example : IsKept open_files (bind_rpc_socket able open_files)
bind_rpc_socket-IsKept_example = bind_rpc_socket-IsKept able open_files
