-- ===== src/Utf8/Lossy.antt =====
-- Lossy decoding gives UTF-8, and leaves UTF-8 as it is.
use allgres.Base.{
  ℕ, zero, suc, length, ℕ-cases, inl, inr, ◌≤◌, ◌<◌, true, [], ◌∷◌, ◌≡◌, refl, ap, arith,
}
use allgres.Bytes.{Bytes}
use allgres.Utf8.{byte_at, char_len, bad_rest, utf8_from, IsUtf8, lossy_from, from_utf8_lossy}

lossy_from-utf8 : (k : ℕ) (s : Bytes) → utf8_from k s ≡ true → lossy_from k zero s ≡ s
unfolding lossy_from utf8_from
lossy_from-utf8 zero [] h = refl
lossy_from-utf8 (suc k) [] h = refl
lossy_from-utf8 (suc k) (c ∷ s) h = ap (◌∷◌ c) (lossy_from-utf8 k s h)
lossy_from-utf8 zero (c ∷ s) h = elim (ℕ-cases (char_len (c ∷ s))) [
  | inl e ↦ ground arith
  | inr (n, e) ↦ rw (e, lossy_from) (ap (◌∷◌ c) (lossy_from-utf8 n s (ground arith)))
]

-- Decoding leaves a valid string as it is.
pub from_utf8_lossy_of_IsUtf8 : (s : Bytes) → IsUtf8 s → from_utf8_lossy s ≡ s
unfolding from_utf8_lossy
from_utf8_lossy_of_IsUtf8 s h = lossy_from-utf8 zero s h

copied-byte_at : (k j : ℕ) (s : Bytes) (i : ℕ) → i < k → byte_at (lossy_from k j s) i ≡ byte_at s i
unfolding lossy_from
copied-byte_at zero j s i h = absurd (omega arith)
copied-byte_at (suc k) j [] i h = refl
copied-byte_at (suc k) j (c ∷ s) zero h = refl
copied-byte_at (suc k) j (c ∷ s) (suc i) h = copied-byte_at k j s i (omega arith)

-- The bytes of a character that are copied make that character again.
copied-char_len :
    (c : ℕ) (s : Bytes) (k j : ℕ)
    → char_len (c ∷ s) ≡ suc k
    → char_len (c ∷ lossy_from k j s) ≡ suc k
unfolding char_len
copied-char_len c s k j h =
    ground (arith, copied-byte_at k j s 0, copied-byte_at k j s 1, copied-byte_at k j s 2)

char_len-le : (c : ℕ) (s : Bytes) (k : ℕ) → char_len (c ∷ s) ≡ suc k → k ≤ length s
unfolding char_len
char_len-le c [] k h = ground arith
char_len-le c (x ∷ []) k h = ground arith
char_len-le c (x ∷ y ∷ []) k h = ground arith
char_len-le c (x ∷ y ∷ z ∷ s) k h = ground arith

char_len_replacement : (s : Bytes) → char_len (0xef ∷ 0xbf ∷ 0xbd ∷ s) ≡ 3
unfolding char_len
char_len_replacement s = refl

utf8_from-lossy_from : (k j : ℕ) (s : Bytes) → k ≤ length s → utf8_from k (lossy_from k j s) ≡ true
unfolding utf8_from lossy_from
utf8_from-lossy_from zero j [] h = refl
utf8_from-lossy_from (suc k) j [] h = absurd (omega arith)
utf8_from-lossy_from (suc k) j (c ∷ s) h = utf8_from-lossy_from k j s (omega arith)
utf8_from-lossy_from zero (suc j) (c ∷ s) h = utf8_from-lossy_from zero j s (omega arith)
utf8_from-lossy_from zero zero (c ∷ s) h = elim (ℕ-cases (char_len (c ∷ s))) [
  | inl e ↦
      rw (e, lossy_from)
        (rw (char_len_replacement (lossy_from zero (bad_rest (c ∷ s)) s), utf8_from)
          (utf8_from-lossy_from zero (bad_rest (c ∷ s)) s (omega arith)))
  | inr (n, e) ↦
      rw (e, lossy_from)
        (rw (copied-char_len c s n zero e, utf8_from)
          (utf8_from-lossy_from n zero s (char_len-le c s n e)))
]

-- What decoding gives is UTF-8, whatever the bytes.
pub from_utf8_lossy-IsUtf8 : (s : Bytes) → IsUtf8 (from_utf8_lossy s)
unfolding from_utf8_lossy
from_utf8_lossy-IsUtf8 s = utf8_from-lossy_from zero zero s (omega arith)
