-- ===== src/Worker/Ident.antt =====
-- The checks of names that go into statements, and the dollar quotes of a body.
pub mod Injection
pub mod Quote
use mathlib.Core.Option
use allgres.Base.{
  ℕ, zero, suc, Bool, true, false, ◌&&◌, ◌||◌, Option, none, some, List, [], ◌∷◌, ◌++◌, ◌==◌,
  if◌then◌else◌, length, all,
}
use allgres.Bytes.{Bytes, lit, is_ascii_hexdigit}
use allgres.Bytes.Compare.{strip_prefix}
use allgres.Bytes.Search.{contains}

-- The bytes from the i-th place on: a dash at four places, hex digits elsewhere.
unfoldable pub uuid_from : ℕ → Bytes → Bool
uuid_from i [] = true
uuid_from i (b ∷ s) =
    (if i == 8 || (i == 13 || (i == 18 || i == 23)) then b == b'-' else is_ascii_hexdigit b)
    && uuid_from (suc i) s

unfoldable pub valid_uuid : Bytes → Bool
valid_uuid s = length s == 36 && uuid_from 0 s

-- The prefix, and 32 hex digits.
unfoldable pub valid_sql_ident : Bytes → Bytes → Bool
valid_sql_ident s prefix = elim (strip_prefix prefix s) [
  | none ↦ false
  | some hex ↦ length hex == 32 && all is_ascii_hexdigit hex
]

pub valid_pg_role : Bytes → Bool
valid_pg_role s = valid_sql_ident s (lit "allgres_agent_")

-- `${tag}$`
abbrev pub delimiter : Bytes → Bytes
delimiter tag = b'$' ∷ (tag ++ b'$' ∷ [])

-- `while body.contains(..) { tag.push('x'); }`, none if the fuel runs out.
pub fresh_tag : ℕ → Bytes → Bytes → Option Bytes
fresh_tag zero body tag = none
fresh_tag (suc fuel) body tag =
    let rest = fresh_tag fuel body (tag ++ b'x' ∷ []) in
    if contains (delimiter tag) body then rest else some tag

-- A longer tag than the body is not in it, so that this fuel is enough.
abbrev pub quote_fuel : Bytes → ℕ
quote_fuel body = suc (length body)

-- What stands behind the opening delimiter.
abbrev pub enclosed : Bytes → Bytes → Bytes
enclosed tag body = b'\n' ∷ (body ++ b'\n' ∷ delimiter tag)

-- The tag and the quoted body; `nanos` is the clock in hex digits.
pub dollar_quote : Bytes → Bytes → Option (Bytes × Bytes)
dollar_quote nanos body =
    Option.map (λ tag. (tag, delimiter tag ++ enclosed tag body))
      (fresh_tag (quote_fuel body) body (lit "body_" ++ nanos))
