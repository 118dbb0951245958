-- ===== src/Config/Private.antt =====
-- Nobody but the owner reaches the socket.
use allgres.Base.{◌%◌, Bool, true, false, ◌≡◌, ◌⊎◌, arith, ◌==◌}
use allgres.Config.{
  Node, absent, directory, file, socket, Files, System, Io, ok, ensure_socket_dir, bind_rpc_socket,
}

-- A directory that gives nothing to the group or to others.
abbrev pub is_private : Node → Bool
is_private (directory mode) = mode % 64 == 0
is_private _ = false

-- What holds of the files before and after: the socket is as it was or its directory is private,
-- and behind a success the directory is private and the socket the owner's.
pub record IsKept (before : Files) (after : Files × Io) : Type 0 where
  pub sheltered : (after.0.sock ≡ before.sock) ⊎ (is_private after.0.dir ≡ true)
  pub private : after.1 ≡ ok → is_private after.0.dir ≡ true
  pub restricted : after.1 ≡ ok → after.0.sock ≡ socket 384

bind-IsKept :
    (sys : System) (dir sock : Node)
    → IsKept
        (record { dir = dir; sock = sock })
        (bind_rpc_socket sys (record { dir = dir; sock = sock }))
unfolding bind_rpc_socket ensure_socket_dir
bind-IsKept sys absent sock = ground arith
bind-IsKept sys (directory mode) sock = ground arith
bind-IsKept sys (file mode) sock = ground arith
bind-IsKept sys (socket mode) sock = ground arith

-- No socket is bound where others may reach it: unless the socket's place is as it was before, its
-- directory gives nothing to the group or to others; and behind a success the socket stands there,
-- for its owner to read and write only.
pub bind_rpc_socket-IsKept : (sys : System) (f : Files) → IsKept f (bind_rpc_socket sys f)
bind_rpc_socket-IsKept sys f = bind-IsKept sys f.dir f.sock
