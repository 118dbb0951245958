-- ===== src/Utf8/WithoutNul.antt =====
-- UTF-8 stays UTF-8 when its NUL characters are left out.
use allgres.Base.{
  ℕ, zero, suc, ◌<◌, Bool, true, not, [], ◌∷◌, ◌≡◌, refl, ◌==◌, keep, all, take, arith, ℕ-cases,
  inl, inr,
}
use allgres.Bytes.{Bytes}
use allgres.Utf8.{byte_at, char_len, utf8_from, IsUtf8}
use allgres.Utf8.Truncate.{continues, char_len-continues}

abbrev pub nonzero : ℕ → Bool
nonzero b = not (b == 0)

-- `s.replace('\0', "")`
abbrev pub without_nul : Bytes → Bytes
without_nul = keep nonzero

byte_at-without_nul :
    (k : ℕ) (s : Bytes) (i : ℕ)
    → continues k s ≡ true
    → i < k
    → byte_at (without_nul s) i ≡ byte_at s i
unfolding continues
byte_at-without_nul zero s i h l = absurd (omega arith)
byte_at-without_nul (suc k) [] i h l = refl
byte_at-without_nul (suc k) (c ∷ s) zero h l = ground arith
byte_at-without_nul (suc k) (c ∷ s) (suc i) h l =
    ground (arith, byte_at-without_nul k s i (ground arith) (omega arith))

char_len-without_nul :
    (c : ℕ) (s : Bytes) (n : ℕ)
    → char_len (c ∷ s) ≡ suc n
    → continues n s ≡ true
    → char_len (c ∷ without_nul s) ≡ suc n
unfolding char_len
char_len-without_nul c s n h k =
    ground
      (arith, byte_at-without_nul n s 0 k, byte_at-without_nul n s 1 k, byte_at-without_nul n s 2 k)

utf8_from-nul : (s : Bytes) → utf8_from zero (0 ∷ s) ≡ utf8_from zero s
unfolding utf8_from char_len
utf8_from-nul s = refl

utf8_from_char :
    (c : ℕ) (s : Bytes) (n : ℕ) → char_len (c ∷ s) ≡ suc n → utf8_from zero (c ∷ s) ≡ utf8_from n s
unfolding utf8_from
utf8_from_char c s n e = rw (e, utf8_from) refl

without_nul-suc : (x : ℕ) (s : Bytes) → without_nul (suc x ∷ s) ≡ suc x ∷ without_nul s
without_nul-suc x s = ground arith

utf8_from-without_nul :
    (k : ℕ) (s : Bytes)
    → utf8_from k s ≡ true
    → continues k s ≡ true
    → utf8_from k (without_nul s) ≡ true
unfolding utf8_from continues
utf8_from-without_nul zero [] h c = refl
utf8_from-without_nul (suc k) [] h c = ground arith
utf8_from-without_nul (suc k) (x ∷ s) h c =
    ground (arith, utf8_from-without_nul k s h (ground arith))
utf8_from-without_nul zero (zero ∷ s) h c =
    utf8_from-without_nul zero s (rw (← utf8_from-nul s) h) refl
utf8_from-without_nul zero (suc x ∷ s) h c = elim (ℕ-cases (char_len (suc x ∷ s))) [
  | inl e ↦ ground arith
  | inr (n, e) ↦
      rw
        (
          without_nul-suc x s,
          utf8_from_char (suc x) (without_nul s) n
              (char_len-without_nul (suc x) s n e (char_len-continues (suc x) s n e).0),
        )
        (utf8_from-without_nul n s (ground arith) (char_len-continues (suc x) s n e).0)
]

pub without_nul-IsUtf8 : (s : Bytes) → IsUtf8 s → IsUtf8 (without_nul s)
unfolding continues
without_nul-IsUtf8 s h = utf8_from-without_nul zero s h refl

pub all-nonzero-without_nul : (s : Bytes) → all nonzero (without_nul s) ≡ true
all-nonzero-without_nul [] = refl
all-nonzero-without_nul (c ∷ s) = ground (arith, all-nonzero-without_nul s)

pub all-nonzero-take : (n : ℕ) (s : Bytes) → all nonzero s ≡ true → all nonzero (take n s) ≡ true
all-nonzero-take zero s h = refl
all-nonzero-take (suc n) [] h = refl
all-nonzero-take (suc n) (c ∷ s) h = ground (arith, all-nonzero-take n s)
