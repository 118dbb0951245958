-- ===== src/Web/Nonce/Laws.antt =====
-- A nonce is hex digits, and tells the bytes that it was made of.
use mathlib.Core.Option
use allgres.Base.{
  ℕ, zero, suc, ◌*◌, ◌/◌, ◌%◌, ◌<◌, Bool, true, false, ◌&&◌, ◌||◌, Option, none, some, [], ◌∷◌, ◌≡◌,
  ◌↔◌, refl, ap, sym, ◌∙◌, arith, ltb, leb, ◌==◌, length, all,
}
use allgres.Bytes.{Bytes}
use allgres.Http.Form.{hex_pair, hex_digit}
use allgres.Web.Nonce.{Draw, le_bytes, mix, drawn, hex_of, hex, nonce}

hex_digit-hex_of : (n : ℕ) → n < 16 → hex_digit (hex_of n) ≡ some n
unfolding hex_digit
hex_digit-hex_of n h = ground arith

hex_of-apart : (n : ℕ) → n < 16 → (hex_of n == b'+') ≡ false
hex_of-apart n h = ground arith

hex_pair-hex_of : (b : ℕ) → b < 256 → hex_pair (hex_of (b / 16)) (hex_of (b % 16)) ≡ some b
unfolding hex_pair
hex_pair-hex_of b h =
    let high : b / 16 < 16 = omega arith in
    let low : b % 16 < 16 = omega arith in
    rw (hex_of-apart (b / 16) high, hex_digit-hex_of (b / 16) high, hex_digit-hex_of (b % 16) low)
      (ap some (omega arith))

-- Bytes, and how many they are.
abbrev pub IsBytes : ℕ → Bytes → Type 0
IsBytes n s = (length s ≡ n) × (all (λ b. ltb b 256) s ≡ true)

pub is_hex : ℕ → Bool
is_hex c = (leb b'0' c && leb c b'9') || (leb b'a' c && leb c b'f')

-- Two digits for each byte, read back.
pub unhex : Bytes → Option Bytes
unhex [] = some []
unhex (a ∷ []) = none
unhex (a ∷ b ∷ s) = elim (hex_pair a b) [ none ↦ none | some x ↦ Option.map (◌∷◌ x) (unhex s) ]

hex_of-is_hex : (n : ℕ) → n < 16 → is_hex (hex_of n) ≡ true
unfolding is_hex
hex_of-is_hex n h = ground arith

-- What the digits of bytes are.
record IsHexOf (s text : Bytes) : Type 0 where
  long : length text ≡ 2 * length s
  digits : all is_hex text ≡ true
  read : unhex text ≡ some s

hex-IsHexOf : (s : Bytes) → all (λ b. ltb b 256) s ≡ true → IsHexOf s (hex s)
unfolding hex unhex
hex-IsHexOf [] h = record { long = refl; digits = refl; read = refl }
hex-IsHexOf (b ∷ s) h =
    let small : b < 256 = ground arith in
    let rest = hex-IsHexOf s (ground arith) in
    record {
      long = omega (arith, rest.long);
      digits =
          rw
            (
              hex_of-is_hex (b / 16) (omega arith),
              hex_of-is_hex (b % 16) (omega arith),
              rest.digits,
            )
            refl;
      read = rw (unhex, hex_pair-hex_of b small, rest.read) refl;
    }

le_bytes-IsBytes : (k n : ℕ) → IsBytes k (le_bytes k n)
unfolding le_bytes
le_bytes-IsBytes zero n = (refl, refl)
le_bytes-IsBytes (suc k) n =
    let (long, small) = le_bytes-IsBytes k (n / 256) in (ap suc long, ground (arith, small))

-- Where /dev/urandom was read, it gave 16 bytes.
abbrev IsRead : Option Bytes → Type 0
IsRead none = Unit
IsRead (some buf) = IsBytes 16 buf

abbrev pub IsDraw : Draw → Type 0
IsDraw d = IsRead d.urandom

drawn-IsBytes : (d : Draw) → IsDraw d → IsBytes 16 (drawn d)
unfolding drawn
drawn-IsBytes d h = by_urandom d.urandom h
  where
    by_urandom :
        (o : Option Bytes)
        → IsRead o
        → IsBytes 16 (elim o as (λ _. Bytes) [ some buf ↦ buf | none ↦ le_bytes 16 (mix d) ])
    by_urandom (some buf) read = read
    by_urandom none read = le_bytes-IsBytes 16 (mix d)

some-injective : {a b : Bytes} → some a ≡ some b → a ≡ b
some-injective e = ground (arith, e)

-- A nonce is 32 hex digits in lower case, and two nonces are the same exactly if the same 16 bytes
-- were drawn, from /dev/urandom, which gives 16 where it can be read, or else from the clock, the
-- process and an address.
pub nonce_lem :
    (c d : Draw)
    → IsDraw c
    → IsDraw d
    → (length (nonce d) ≡ 32)
      × (all is_hex (nonce d) ≡ true)
      × ((nonce c ≡ nonce d) ↔ (drawn c ≡ drawn d))
unfolding nonce
nonce_lem c d h k =
    let bytes = drawn-IsBytes d k in
    let made = hex-IsHexOf (drawn d) bytes.1 in
    let other = hex-IsHexOf (drawn c) (drawn-IsBytes c h).1 in
    (
      omega (arith, made.long, bytes.0),
      made.digits,
      ((λ e. some-injective (sym other.read ∙ ap unhex e ∙ made.read)), ap hex),
    )
