-- ===== src/Json.antt =====
-- The JSON values that the sources build and take apart: serde_json's `Value`, and what it
-- documents of `get`, `as_str`, `as_bool`, `as_object` and assignment to `value[key]`. Parsing and
-- printing are serde_json's own, and parameters wherever they are used.
pub mod Laws
use Prim.Native.String.{String}
use allgres.Base.{Bool, Option, none, some, if◌then◌else◌}
use allgres.Bytes.{Bytes, lit}
use allgres.Bytes.Compare.{same}

mutual
  -- A number is kept as its text.
  pub data Json : Type 0 where
    null : Json
    bool : Bool → Json
    num : Bytes → Json
    str : Bytes → Json
    arr : Items → Json
    obj : Fields → Json

  pub data Items : Type 0 where
    nil : Items
    cons : Json → Items → Items

  pub data Fields : Type 0 where
    end : Fields
    field : Bytes → Json → Fields → Fields

unfoldable pub lookup_field : Bytes → Fields → Option Json
lookup_field k end = none
lookup_field k (field j v fs) = if same j k then some v else lookup_field k fs

unfoldable pub insert_field : Bytes → Json → Fields → Fields
insert_field k v end = field k v end
insert_field k v (field j w fs) = if same j k then field k v fs else field j w (insert_field k v fs)

-- `Value::get`
unfoldable pub get : Bytes → Json → Option Json
get k (obj fs) = lookup_field k fs
get k _ = none

abbrev pub as_str : Json → Option Bytes
as_str (str s) = some s
as_str _ = none

abbrev pub as_bool : Json → Option Bool
as_bool (bool b) = some b
as_bool _ = none

infixl 5 ◌>>=◌
abbrev pub ◌>>=◌ {ℓ κ} : {A : Type ℓ} {B : Type κ} → Option A → (A → Option B) → Option B
none >>= k = none
some a >>= k = k a

-- `value.get(key).and_then(Value::as_str)`
unfoldable pub get_str : Bytes → Json → Option Bytes
get_str k v = do s ← get k v; as_str s

unfoldable pub get_bool : Bytes → Json → Option Bool
get_bool k v = do b ← get k v; as_bool b

-- `value[key] = v`: null becomes an object, and any other value but an object panics (`none`).
unfoldable pub set_key : Bytes → Json → Json → Option Json
set_key k v (obj fs) = some (obj (insert_field k v fs))
set_key k v null = some (obj (field k v end))
set_key k v _ = none

-- Literals.
abbrev pub text : String → Json
text s = str (lit s)

abbrev pub entry : String → Json → Fields → Fields
entry k v fs = field (lit k) v fs
