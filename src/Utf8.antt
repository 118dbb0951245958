-- ===== src/Utf8.antt =====
-- UTF-8: `String::from_utf8_lossy`, char boundaries, and `truncate_utf8` of src/lib.rs.
pub mod Lossy
pub mod Truncate
pub mod WithoutNul
pub mod Tests
use allgres.Base.{
  ℕ, zero, suc, ◌-◌, Bool, true, false, ◌&&◌, ◌||◌, [], ◌∷◌, ◌≡◌, ltb, leb, ◌==◌, within,
  if◌then◌else◌, length, take,
}
use allgres.Bytes.{Bytes}

abbrev pub byte_at : Bytes → ℕ → ℕ
byte_at [] i = 0
byte_at (c ∷ s) zero = c
byte_at (c ∷ s) (suc i) = byte_at s i

abbrev is_continuation : ℕ → Bool
is_continuation b = within 0x80 0xbf b

-- Whether `b` may follow the lead byte `a`.
abbrev is_second : ℕ → ℕ → Bool
is_second a b =
    if a == 0xe0
    then within 0xa0 0xbf b
    else if a == 0xed
    then within 0x80 0x9f b
    else if a == 0xf0
    then within 0x90 0xbf b
    else if a == 0xf4
    then within 0x80 0x8f b
    else within 0x80 0xbf b

abbrev then_char : Bool → ℕ → ℕ
then_char true n = n
then_char false n = 0

-- The width of the character at the front, 0 where the bytes are not UTF-8.
unfoldable pub char_len : Bytes → ℕ
char_len [] = 0
char_len (a ∷ s) =
    if ltb a 0x80
    then 1
    else if within 0xc2 0xdf a
    then then_char (is_continuation (byte_at s 0)) 2
    else if within 0xe0 0xef a
    then then_char (is_second a (byte_at s 0) && is_continuation (byte_at s 1)) 3
    else if within 0xf0 0xf4 a
    then then_char
        (is_second a (byte_at s 0)
          && (is_continuation (byte_at s 1) && is_continuation (byte_at s 2)))
        4
    else 0

-- Where there is no character at the front, the width less one of the piece that one U+FFFD
-- stands for: the longest start of a character, or one byte.
bad_rest : Bytes → ℕ
bad_rest [] = 0
bad_rest (a ∷ s) =
    if within 0xe0 0xef a && is_second a (byte_at s 0)
    then 1
    else if within 0xf0 0xf4 a && is_second a (byte_at s 0)
    then if is_continuation (byte_at s 1) then 2 else 1
    else 0

-- The number is what is left of the current character.
unfoldable pub utf8_from : ℕ → Bytes → Bool
utf8_from zero [] = true
utf8_from (suc k) [] = false
utf8_from (suc k) (c ∷ s) = utf8_from k s
utf8_from zero (c ∷ s) = elim (char_len (c ∷ s)) [ zero ↦ false | suc k ↦ utf8_from k s ]

-- What every Rust `str` satisfies.
abbrev pub IsUtf8 : Bytes → Type 0
IsUtf8 s = utf8_from zero s ≡ true

-- The numbers are what is left to copy, and then to skip.
lossy_from : ℕ → ℕ → Bytes → Bytes
lossy_from k j [] = []
lossy_from (suc k) j (c ∷ s) = c ∷ lossy_from k j s
lossy_from zero (suc j) (c ∷ s) = lossy_from zero j s
lossy_from zero zero (c ∷ s) = elim (char_len (c ∷ s)) [
  | zero ↦ 0xef ∷ 0xbf ∷ 0xbd ∷ lossy_from zero (bad_rest (c ∷ s)) s
  | suc k ↦ c ∷ lossy_from k zero s
]

-- `String::from_utf8_lossy`
unfoldable pub from_utf8_lossy : Bytes → Bytes
unfolding lossy_from char_len bad_rest
from_utf8_lossy = lossy_from zero zero

-- `str::is_char_boundary`
pub is_char_boundary : Bytes → ℕ → Bool
is_char_boundary s zero = true
is_char_boundary [] (suc i) = false
is_char_boundary (c ∷ []) (suc i) = i == 0
is_char_boundary (c ∷ d ∷ s) (suc zero) = ltb d 0x80 || leb 0xc0 d
is_char_boundary (c ∷ d ∷ s) (suc (suc i)) = is_char_boundary (d ∷ s) (suc i)

-- `while end > 0 && !s.is_char_boundary(end) { end -= 1; }`
floor_boundary : Bytes → ℕ → ℕ
floor_boundary s zero = zero
floor_boundary s (suc e) = if is_char_boundary s (suc e) then suc e else floor_boundary s e

pub truncate_utf8 : Bytes → ℕ → Bytes
truncate_utf8 s max = if leb (length s) max then s else take (floor_boundary s max) s
