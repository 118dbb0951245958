-- ===== src/Bytes.antt =====
-- Bytes and byte strings: what the Rust sources use of `str`, `[u8]` and `char`. A `String` or a
-- `&str` is the list of its UTF-8 bytes.
pub mod Search
pub mod Split
pub mod Compare
use Prim.Native.Char.{code}
use Prim.Native.String.{String}
use allgres.Base.{
  ℕ, ◌+◌, ◌-◌, Bool, true, false, ◌&&◌, ◌||◌, List, [], ◌∷◌, Option, none, some, leb, ltb, ◌==◌,
  within, if◌then◌else◌,
}

abbrev pub Bytes : Type 0
Bytes = List ℕ

-- An ASCII literal.
abbrev pub lit : String → Bytes
lit String.[] = []
lit (String.◌∷◌ c s) = code c ∷ lit s

-- `u8::is_ascii_hexdigit`
abbrev pub is_ascii_hexdigit : ℕ → Bool
is_ascii_hexdigit c = within b'0' b'9' c || within b'a' b'f' c || within b'A' b'F' c

-- `u8::is_ascii_alphanumeric`
abbrev pub is_ascii_alphanumeric : ℕ → Bool
is_ascii_alphanumeric c = within b'0' b'9' c || within b'a' b'z' c || within b'A' b'Z' c

-- `u8::is_ascii_whitespace`: space, tab, line feed, form feed, carriage return
abbrev pub is_ascii_whitespace : ℕ → Bool
is_ascii_whitespace c = c == 32 || c == 9 || c == 10 || c == 12 || c == 13

-- `u8::to_ascii_lowercase`
abbrev pub lower : ℕ → ℕ
lower c = if within b'A' b'Z' c then c + 32 else c

-- `u8::to_ascii_uppercase`
abbrev pub upper : ℕ → ℕ
upper c = if within b'a' b'z' c then c - 32 else c
