-- ===== src/Bytes/Split.antt =====
-- `split`, `split_once`, `lines`, `trim` and `split_whitespace`.
pub mod Lines
pub mod Words
use allgres.Base.{
  ℕ, zero, suc, ◌&&◌, ◌||◌, List, [], ◌∷◌, ◌++◌, Option, none, some, ◌==◌, within, if◌then◌else◌,
  is_empty,
}
use mathlib.Core.Option
use allgres.Bytes.{Bytes}

abbrev push_front : ℕ → Bytes × Bytes → Bytes × Bytes
push_front c (a, b) = (c ∷ a, b)

-- `split_once` at an ASCII character
unfoldable pub split_once : ℕ → Bytes → Option (Bytes × Bytes)
split_once d [] = none
split_once d (c ∷ s) = if c == d then some ([], s) else Option.map (push_front c) (split_once d s)

abbrev push_head : ℕ → List Bytes → List Bytes
push_head c [] = (c ∷ []) ∷ []
push_head c (p ∷ ps) = (c ∷ p) ∷ ps

-- `split` at an ASCII character
unfoldable pub split : ℕ → Bytes → List Bytes
split d [] = [] ∷ []
split d (c ∷ s) = if c == d then [] ∷ split d s else push_head c (split d s)

-- The first of `split`, which always has one.
unfoldable pub split_first : ℕ → Bytes → Bytes
split_first d [] = []
split_first d (c ∷ s) = if c == d then [] else c ∷ split_first d s

abbrev strip_cr : Bytes → Bytes
strip_cr [] = []
strip_cr (c ∷ []) = if c == b'\r' then [] else c ∷ []
strip_cr (c ∷ d ∷ s) = c ∷ strip_cr (d ∷ s)

lines_from : Bytes → Bytes → List Bytes
lines_from cur [] = if is_empty cur then [] else cur ∷ []
lines_from cur (c ∷ s) =
    let closed = strip_cr cur ∷ lines_from [] s in
    let longer = lines_from (cur ++ c ∷ []) s in if c == b'\n' then closed else longer

-- `str::lines`: a line ends with "\n" or "\r\n", and the text behind the last one is a line
-- unless it is empty.
unfoldable pub lines : Bytes → List Bytes
unfolding lines_from
lines = lines_from []

abbrev byte_at : Bytes → ℕ → ℕ
byte_at [] i = 0
byte_at (c ∷ s) zero = c
byte_at (c ∷ s) (suc i) = byte_at s i

-- The width of the `White_Space` character at the front, 0 where there is none.
pub white_len : Bytes → ℕ
white_len s =
    let a = byte_at s 0 in
    let b = byte_at s 1 in
    let c = byte_at s 2 in
    if within 9 13 a || a == 32
    then 1
    else if a == 0xc2 && (b == 0x85 || b == 0xa0)
    then 2
    else if (a == 0xe1 && b == 0x9a && c == 0x80)
        || (a == 0xe2 && b == 0x80 && (within 0x80 0x8a c || c == 0xa8 || c == 0xa9 || c == 0xaf))
        || (a == 0xe2 && b == 0x81 && c == 0x9f)
        || (a == 0xe3 && b == 0x80 && c == 0x80)
    then 3
    else 0

-- The number is what is left to skip of a white character.
trim_from : ℕ → Bytes → Bytes
trim_from k [] = []
trim_from (suc k) (c ∷ s) = trim_from k s
trim_from zero (c ∷ s) = elim (white_len (c ∷ s)) [ zero ↦ c ∷ s | suc k ↦ trim_from k s ]

trim_end : Bytes → Bytes
trim_end [] = []
trim_end (c ∷ s) = if is_empty (trim_from zero (c ∷ s)) then [] else c ∷ trim_end s

-- `str::trim`
unfoldable pub trim : Bytes → Bytes
unfolding trim_from trim_end white_len
trim s = trim_end (trim_from zero s)

abbrev push_word : Bytes → List Bytes → List Bytes
push_word [] ws = ws
push_word (c ∷ w) ws = (c ∷ w) ∷ ws

words_from : ℕ → Bytes → Bytes → List Bytes
words_from k cur [] = push_word cur []
words_from (suc k) cur (c ∷ s) = words_from k cur s
words_from zero cur (c ∷ s) = elim (white_len (c ∷ s)) [
  | zero ↦ words_from zero (cur ++ c ∷ []) s
  | suc k ↦ push_word cur (words_from k [] s)
]

-- `str::split_whitespace`
unfoldable pub split_whitespace : Bytes → List Bytes
unfolding words_from white_len
split_whitespace = words_from zero []
