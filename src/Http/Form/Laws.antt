-- ===== src/Http/Form/Laws.antt =====
-- What an encoder writes, the decoders read back.
use allgres.Base.{
  ℕ, ◌+◌, ◌-◌, ◌/◌, ◌%◌, ◌<◌, Bool, false, ◌||◌, [], ◌∷◌, some, ◌≡◌, refl, ap, ◌∙◌, arith, ltb,
  ◌==◌, if◌then◌else◌, All,
}
use allgres.Bytes.{Bytes, is_ascii_alphanumeric}
use allgres.Utf8.{IsUtf8, from_utf8_lossy}
use allgres.Utf8.Lossy.{from_utf8_lossy_of_IsUtf8}
use allgres.Http.Form.{
  hex_digit, hex_pair, plus_to_space, decode_bytes, percent_decode, form_decode_bytes,
}

-- The two loops decode alike.
pub form_decode_bytes-decode_bytes : (s : Bytes) → form_decode_bytes s ≡ decode_bytes s
unfolding form_decode_bytes decode_bytes
form_decode_bytes-decode_bytes [] = refl
form_decode_bytes-decode_bytes (c ∷ []) = refl
form_decode_bytes-decode_bytes (c ∷ a ∷ []) =
    ap (◌∷◌ (plus_to_space c)) (form_decode_bytes-decode_bytes (a ∷ []))
form_decode_bytes-decode_bytes (c ∷ a ∷ b ∷ s) =
    ground (arith, form_decode_bytes-decode_bytes (a ∷ b ∷ s), form_decode_bytes-decode_bytes s)

hex_upper : ℕ → ℕ
hex_upper d = if ltb d 10 then d + b'0' else d - 10 + b'A'

-- RFC 3986: what may stand for itself.
is_unreserved : ℕ → Bool
is_unreserved c = is_ascii_alphanumeric c || c == b'-' || c == b'.' || c == b'_' || c == b'~'

-- An encoder, written from the format and not from the decoders.
pub encode : Bytes → Bytes
encode [] = []
encode (c ∷ s) =
    let rest = encode s in
    if is_unreserved c
    then c ∷ rest
    else if c == b' '
    then b'+' ∷ rest
    else b'%' ∷ hex_upper (c / 16) ∷ hex_upper (c % 16) ∷ rest

abbrev IsByte : ℕ → Type 0
IsByte c = c < 256

hex_digit-hex_upper : (d : ℕ) → d < 16 → hex_digit (hex_upper d) ≡ some d
unfolding hex_digit hex_upper
hex_digit-hex_upper d h = ground arith

hex_upper-ne-plus : (d : ℕ) → d < 16 → hex_upper d == b'+' ≡ false
unfolding hex_upper
hex_upper-ne-plus d h = ground arith

hex_pair-hex_upper :
    (c : ℕ) → IsByte c → hex_pair (hex_upper (c / 16)) (hex_upper (c % 16)) ≡ some c
unfolding hex_pair
hex_pair-hex_upper c h =
    ground (
      arith,
      hex_upper-ne-plus (c / 16),
      hex_digit-hex_upper (c / 16),
      hex_digit-hex_upper (c % 16),
    )

-- A byte other than the percent sign is taken as it is.
decode_bytes-cons :
    (c : ℕ) (s : Bytes)
    → c == b'%' ≡ false
    → decode_bytes (c ∷ s) ≡ plus_to_space c ∷ decode_bytes s
unfolding decode_bytes
decode_bytes-cons c [] h = refl
decode_bytes-cons c (a ∷ []) h = refl
decode_bytes-cons c (a ∷ b ∷ s) h = rw (h, decode_bytes)

decode_bytes-hex :
    (c : ℕ) (s : Bytes)
    → IsByte c
    → decode_bytes (b'%' ∷ hex_upper (c / 16) ∷ hex_upper (c % 16) ∷ s) ≡ c ∷ decode_bytes s
unfolding decode_bytes
decode_bytes-hex c s h = rw (hex_pair-hex_upper c h, decode_bytes)

pub decode_bytes-encode : (s : Bytes) → All IsByte s → decode_bytes (encode s) ≡ s
unfolding encode is_unreserved
decode_bytes-encode [] h = unfold decode_bytes in refl
decode_bytes-encode (c ∷ s) h = ground (
  arith,
  decode_bytes-encode s,
  decode_bytes-cons c (encode s),
  decode_bytes-cons b'+' (encode s),
  decode_bytes-hex c (encode s),
)

-- A valid string that is encoded is decoded to itself, in a query and in a form.
pub percent_decode-encode :
    (s : Bytes)
    → All IsByte s
    → IsUtf8 s
    → (percent_decode (encode s) ≡ s) × (from_utf8_lossy (form_decode_bytes (encode s)) ≡ s)
unfolding percent_decode
percent_decode-encode s h u =
    let decoded = ap from_utf8_lossy (decode_bytes-encode s h) ∙ from_utf8_lossy_of_IsUtf8 s u in
    (decoded, ap from_utf8_lossy (form_decode_bytes-decode_bytes (encode s)) ∙ decoded)
