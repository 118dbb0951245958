-- ===== src/Config.antt =====
-- src/config.rs: the settings from the environment, and the directory and the socket of the runtime
-- worker. A file's mode is a number; the bits of the group and of others are its last six.
pub mod Private
pub mod Tests
use mathlib.Core.Option
use allgres.Base.{
  ℕ, ◌%◌, Bool, true, false, not, ◌||◌, Option, [], ◌∷◌, ◌++◌, ◌==◌, if◌then◌else◌, value_or,
  keep_if, is_empty,
}
use allgres.Bytes.{Bytes, lit}
use allgres.Utf8.{utf8_from}

-- `std::env::var(..).ok()`
abbrev pub Environment : Type 0
Environment = Bytes → Option Bytes

abbrev is_nonempty : Bytes → Bool
is_nonempty v = not (is_empty v)

unfoldable pub env_opt : Environment → Bytes → Option Bytes
env_opt env key = keep_if is_nonempty (env key)

pub configured_database : Environment → Bytes
configured_database env = value_or (lit "postgres") (env_opt env (lit "ALLGRES_DATABASE"))

unfoldable pub configured_http_addr : Environment → Bytes
configured_http_addr env = value_or (lit "127.0.0.1:8088") (env_opt env (lit "ALLGRES_HTTP_ADDR"))

abbrev ends_in_slash : Bytes → Bool
ends_in_slash [] = false
ends_in_slash (c ∷ []) = c == b'/'
ends_in_slash (c ∷ d ∷ s) = ends_in_slash (d ∷ s)

-- `Path::join` with a relative name.
abbrev join : Bytes → Bytes → Bytes
join base name = if ends_in_slash base then base ++ name else base ++ b'/' ∷ name

-- The text at the pointer `DataDir`, if that is not null.
pub data_directory : Option Bytes → Option Bytes
data_directory data_dir = keep_if is_nonempty (keep_if (utf8_from 0) data_dir)

pub socket_dir : Environment → Option Bytes → Bytes → Bytes
socket_dir env data_dir temp_dir =
    value_or (join (value_or temp_dir (data_directory data_dir)) (lit "allgres"))
      (env_opt env (lit "ALLGRES_SOCKET_DIR"))

pub rpc_socket_path : Environment → Option Bytes → Bytes → Bytes
rpc_socket_path env data_dir temp_dir = join (socket_dir env data_dir temp_dir) (lit "runtime.sock")

-- What stands at a path.
pub data Node : Type 0 where
  absent : Node
  directory file socket : ℕ → Node

-- The file system, where the worker looks: its directory, and the socket in it.
pub record Files : Type 0 where
  pub dir : Node
  pub sock : Node

-- Which calls succeed, and the modes that a new directory and a new socket get.
pub record System : Type 0 where
  pub can_create : Bool
  pub can_stat : Bool
  pub can_tighten : Bool
  pub can_remove : Bool
  pub can_bind : Bool
  pub can_restrict : Bool
  pub created_mode : ℕ
  pub bound_mode : ℕ

-- `io::Result<()>`
pub data Io : Type 0 where
  ok error : Io

-- One call goes on to the next.
abbrev and_then : (Files → Files × Io) → Files × Io → Files × Io
and_then k (f, ok) = k f
and_then k (f, error) = (f, error)

abbrev exists : Node → Bool
exists absent = false
exists _ = true

abbrev owner_only : ℕ
owner_only = 448

-- `if !dir.exists() { DirBuilder::new()..create(dir)?; }`
abbrev create_missing : System → Files → Files × Io
create_missing sys f =
    if exists f.dir
    then (f, ok)
    else if sys.can_create
    then (record f { dir = directory sys.created_mode }, ok)
    else (f, error)

-- A mode that gives anything to the group or to others is tightened.
abbrev tighten : System → ℕ → Files → Files × Io
tighten sys mode f =
    if mode % 64 == 0
    then (f, ok)
    else if sys.can_tighten
    then (record f { dir = directory owner_only }, ok)
    else (f, error)

abbrev check_directory : System → Node → Files → Files × Io
check_directory sys (directory mode) f = tighten sys mode f
check_directory sys _ f = (f, error)

pub ensure_socket_dir : System → Files → Files × Io
ensure_socket_dir sys f =
    and_then (λ f. if sys.can_stat then check_directory sys f.dir f else (f, error))
      (create_missing sys f)

-- An old socket is removed, if that succeeds.
abbrev pub remove_old : System → Files → Files
remove_old sys f = if sys.can_remove then record f { sock = absent } else f

-- Binding fails where something stands; the mode 0600 is set afterwards.
abbrev bind_new : System → Files → Files × Io
bind_new sys f =
    if exists f.sock || not sys.can_bind
    then (f, error)
    else if sys.can_restrict
    then (record f { sock = socket 384 }, ok)
    else (record f { sock = socket sys.bound_mode }, error)

pub bind_rpc_socket : System → Files → Files × Io
bind_rpc_socket sys f = and_then (λ f. bind_new sys (remove_old sys f)) (ensure_socket_dir sys f)
