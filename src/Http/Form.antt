-- ===== src/Http/Form.antt =====
-- src/http_protocol.rs `parse_form_body` and src/web.rs `percent_decode`: decoding of
-- application/x-www-form-urlencoded text.
pub mod Laws
pub mod Tests
use mathlib.Core.Option
use allgres.Base.{
  ℕ, ◌+◌, ◌-◌, ◌*◌, Bool, List, [], ◌∷◌, Option, none, some, ◌==◌, within, if◌then◌else◌, map,
}
use allgres.Bytes.{Bytes}
use allgres.Bytes.Compare.{same}
use allgres.Bytes.Split.{split, split_once}
use allgres.Utf8.{from_utf8_lossy}
use allgres.Http.{◌>>=◌}

-- `char::to_digit(16)`
unfoldable pub hex_digit : ℕ → Option ℕ
hex_digit c =
    if within b'0' b'9' c
    then some (c - b'0')
    else if within b'a' b'f' c
    then some (c - b'a' + 10)
    else if within b'A' b'F' c
    then some (c - b'A' + 10)
    else none

-- `u8::from_str_radix(.., 16)` on two bytes; a plus sign may stand for the first digit.
unfoldable pub hex_pair : ℕ → ℕ → Option ℕ
hex_pair a b =
    if a == b'+'
    then hex_digit b
    else do high ← hex_digit a; low ← hex_digit b; some (high * 16 + low)

abbrev plus_to_space : ℕ → ℕ
plus_to_space c = if c == b'+' then b' ' else c

-- The loop of `percent_decode`. A percent sign that two bytes do not follow stands for itself.
pub decode_bytes : Bytes → Bytes
decode_bytes [] = []
decode_bytes (c ∷ a ∷ b ∷ s) = elim (if c == b'%' then hex_pair a b else none) [
  | some byte ↦ byte ∷ decode_bytes s
  | none ↦ plus_to_space c ∷ decode_bytes (a ∷ b ∷ s)
]
decode_bytes (c ∷ s) = plus_to_space c ∷ decode_bytes s

pub percent_decode : Bytes → Bytes
percent_decode s = from_utf8_lossy (decode_bytes s)

-- The loop of `decode` in `parse_form_body`, which looks for the plus sign first.
pub form_decode_bytes : Bytes → Bytes
form_decode_bytes [] = []
form_decode_bytes (c ∷ a ∷ b ∷ s) =
    let rest = form_decode_bytes (a ∷ b ∷ s) in
    let decoded = elim (hex_pair a b) as (λ _. Bytes) [
      | some byte ↦ byte ∷ form_decode_bytes s
      | none ↦ c ∷ rest
    ] in
    if c == b'+' then b' ' ∷ rest else if c == b'%' then decoded else c ∷ rest
form_decode_bytes (c ∷ s) = plus_to_space c ∷ form_decode_bytes s

abbrev decode_pair : Bytes → Option (Bytes × Bytes)
decode_pair pair =
    Option.map
      (λ p. (from_utf8_lossy (form_decode_bytes p.0), from_utf8_lossy (form_decode_bytes p.1)))
      (split_once b'=' pair)

-- The value of the last pair of this name: a later pair overwrites an earlier one in the map.
form_lookup : Bytes → List Bytes → Option Bytes
form_lookup key [] = none
form_lookup key (pair ∷ pairs) = elim (form_lookup key pairs) [
  | some v ↦ some v
  | none ↦ do (k, v) ← decode_pair pair; if same k key then some v else none
]

-- `parse_form_body(body).get(key)`
pub form_value : Bytes → Bytes → Option Bytes
form_value body key = form_lookup key (split b'&' body)

-- `query_param` of src/web.rs: the first pair of this name.
query_lookup : Bytes → List Bytes → Option Bytes
query_lookup key [] = none
query_lookup key (pair ∷ pairs) = elim (split_once b'=' pair) [
  | none ↦ query_lookup key pairs
  | some (k, v) ↦ if same k key then some (percent_decode v) else query_lookup key pairs
]

pub query_param : Bytes → Bytes → Option Bytes
query_param text key = query_lookup key (split b'&' text)
