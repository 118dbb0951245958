-- ===== src/Utf8/Truncate.antt =====
-- `truncate_utf8` gives the longest prefix that is UTF-8 and within the bound.
use mathlib.Core.Bool.{not}
use allgres.Base.{
  take_all, ℕ, zero, suc, ◌≤◌, ◌<◌, Bool, true, false, ◌&&◌, [], ◌∷◌, ◌≡◌, inl, inr, refl, sym, ◌∙◌,
  arith, leb, length, take, length-take, Bool-cases, ℕ-cases, leb→le,
}
use allgres.Bytes.{Bytes}
use allgres.Utf8.{
  byte_at, is_continuation, char_len, utf8_from, IsUtf8, is_char_boundary, floor_boundary,
  truncate_utf8,
}

-- The first `k` bytes are continuation bytes.
unfoldable pub continues : ℕ → Bytes → Bool
continues zero s = true
continues (suc k) [] = false
continues (suc k) (c ∷ s) = is_continuation c && continues k s

-- A place where no character is cut: the end, or a byte that continues none.
starts : Bytes → ℕ → Bool
starts [] zero = true
starts [] (suc i) = false
starts (c ∷ s) zero = not (is_continuation c)
starts (c ∷ s) (suc i) = starts s i

pub char_len-continues :
    (c : ℕ) (s : Bytes) (k : ℕ)
    → char_len (c ∷ s) ≡ suc k
    → (continues k s ≡ true) × (is_continuation c ≡ false) × (k ≤ 3)
unfolding char_len continues
char_len-continues c [] k h = ground arith
char_len-continues c (x ∷ []) k h = ground arith
char_len-continues c (x ∷ y ∷ []) k h = ground arith
char_len-continues c (x ∷ y ∷ z ∷ s) k h = ground arith

byte_at-take : (s : Bytes) (i j : ℕ) → j < i → byte_at (take i s) j ≡ byte_at s j
byte_at-take s zero j h = absurd (omega arith)
byte_at-take [] (suc i) j h = refl
byte_at-take (c ∷ s) (suc i) zero h = refl
byte_at-take (c ∷ s) (suc i) (suc j) h = byte_at-take s i j (omega arith)

byte_at-take_end : (s : Bytes) (i j : ℕ) → i ≤ j → byte_at (take i s) j ≡ 0
byte_at-take_end s zero j h = refl
byte_at-take_end [] (suc i) j h = refl
byte_at-take_end (c ∷ s) (suc i) zero h = absurd (omega arith)
byte_at-take_end (c ∷ s) (suc i) (suc j) h = byte_at-take_end s i j (omega arith)

utf8_from_short : (k : ℕ) (s : Bytes) → length s < k → utf8_from k s ≡ false
unfolding utf8_from
utf8_from_short zero s h = absurd (omega arith)
utf8_from_short (suc k) [] h = refl
utf8_from_short (suc k) (c ∷ s) h = utf8_from_short k s (omega arith)

char_len-take :
    (c : ℕ) (s : Bytes) (n i : ℕ)
    → char_len (c ∷ s) ≡ suc n
    → n ≤ i
    → char_len (c ∷ take i s) ≡ suc n
unfolding char_len
char_len-take c s n i h k =
    ground (arith, byte_at-take s i 0, byte_at-take s i 1, byte_at-take s i 2)

char_len-take_short :
    (c : ℕ) (s : Bytes) (n i : ℕ) → char_len (c ∷ s) ≡ suc n → i < n → char_len (c ∷ take i s) ≡ 0
unfolding char_len
char_len-take_short c s n i h k = ground (
  arith,
  byte_at-take s i 0,
  byte_at-take s i 1,
  byte_at-take s i 2,
  byte_at-take_end s i 0,
  byte_at-take_end s i 1,
  byte_at-take_end s i 2,
)

utf8_from-take_char :
    (c : ℕ) (s : Bytes) (n i : ℕ)
    → char_len (c ∷ s) ≡ suc n
    → utf8_from zero (c ∷ take i s) ≡ utf8_from n (take i s)
unfolding utf8_from
utf8_from-take_char c s n i h = elim (Bool-cases (leb n i)) [
  | inl long ↦ rw (char_len-take c s n i h (leb→le n i long), utf8_from)
  | inr short ↦
      rw (char_len-take_short c s n i h (ground arith), utf8_from)
        (sym (utf8_from_short n (take i s) (ground (arith, length-take i s))))
]

-- A prefix of UTF-8 is UTF-8 where it cuts no character.
utf8_from-take :
    (k : ℕ) (s : Bytes) (i : ℕ)
    → utf8_from k s ≡ true
    → continues k s ≡ true
    → i ≤ length s
    → utf8_from k (take i s) ≡ starts s i
unfolding utf8_from starts continues
utf8_from-take zero [] zero h c l = refl
utf8_from-take zero [] (suc i) h c l = absurd (omega arith)
utf8_from-take (suc k) [] i h c l = ground arith
utf8_from-take (suc k) (x ∷ s) zero h c l = ground arith
utf8_from-take (suc k) (x ∷ s) (suc i) h c l = utf8_from-take k s i h (ground arith) (omega arith)
utf8_from-take zero (x ∷ s) zero h c l = elim (ℕ-cases (char_len (x ∷ s))) [
  | inl e ↦ ground arith
  | inr (n, e) ↦ rw (char_len-continues x s n e).1
]
utf8_from-take zero (x ∷ s) (suc i) h c l = elim (ℕ-cases (char_len (x ∷ s))) [
  | inl e ↦ ground arith
  | inr (n, e) ↦
      utf8_from-take_char x s n i e
      ∙ utf8_from-take n s i (ground arith) (char_len-continues x s n e).0 (omega arith)
]

is_char_boundary-starts :
    (c : ℕ) (s : Bytes) (i : ℕ) → is_char_boundary (c ∷ s) (suc i) ≡ starts s i
unfolding is_char_boundary starts
is_char_boundary-starts c [] zero = refl
is_char_boundary-starts c [] (suc i) = ground arith
is_char_boundary-starts c (d ∷ s) zero = ground arith
is_char_boundary-starts c (d ∷ s) (suc i) = is_char_boundary-starts d s i

-- In a valid string a place is a char boundary exactly where the bytes before it are valid.
pub is_char_boundary-utf8 :
    (s : Bytes) (i : ℕ) → IsUtf8 s → i ≤ length s → is_char_boundary s i ≡ utf8_from zero (take i s)
unfolding is_char_boundary utf8_from
is_char_boundary-utf8 s zero h l = refl
is_char_boundary-utf8 [] (suc i) h l = absurd (omega arith)
is_char_boundary-utf8 (c ∷ s) (suc i) h l =
    is_char_boundary-starts c s i
    ∙ sym (unfold starts continues in utf8_from-take zero (c ∷ s) (suc i) h refl l)

floor_boundary_lem :
    (s : Bytes) (e : ℕ)
    → (floor_boundary s e ≤ e) × (is_char_boundary s (floor_boundary s e) ≡ true)
unfolding floor_boundary is_char_boundary
floor_boundary_lem s zero = ground arith
floor_boundary_lem s (suc e) = ground (arith, floor_boundary_lem s e)

floor_boundary-max :
    (s : Bytes) (e i : ℕ) → i ≤ e → is_char_boundary s i ≡ true → i ≤ floor_boundary s e
unfolding floor_boundary
floor_boundary-max s zero i h b = h
floor_boundary-max s (suc e) i h b = elim (Bool-cases (is_char_boundary s (suc e))) [
  | inl stop ↦ rw stop h
  | inr down ↦ rw down (floor_boundary-max s e i (ground arith) b)
]

-- The longest prefix of `s` that is UTF-8 and has at most `max` bytes.
pub record IsCut (s : Bytes) (max : ℕ) (t : Bytes) : Type 0 where
  pub prefix : t ≡ take (length t) s
  pub bounded : length t ≤ max
  pub valid : IsUtf8 t
  pub longest : (i : ℕ) → i ≤ max → i ≤ length s → IsUtf8 (take i s) → i ≤ length t

take-IsCut :
    (s : Bytes) (max : ℕ) → IsUtf8 s → max < length s → IsCut s max (take (floor_boundary s max) s)
take-IsCut s max h l =
    let (below, at_start) = floor_boundary_lem s max in
    let len : length (take (floor_boundary s max) s) ≡ floor_boundary s max =
      omega (arith, length-take (floor_boundary s max) s) in
    record {
      prefix = rw len;
      bounded = rw len below;
      valid = sym (is_char_boundary-utf8 s (floor_boundary s max) h (omega arith)) ∙ at_start;
      longest =
          λ i p q u. rw len (floor_boundary-max s max i p (is_char_boundary-utf8 s i h q ∙ u));
    }

-- Cutting a valid string to a number of bytes gives its longest valid prefix within the number.
pub truncate_utf8-IsCut : (s : Bytes) (max : ℕ) → IsUtf8 s → IsCut s max (truncate_utf8 s max)
unfolding truncate_utf8
truncate_utf8-IsCut s max h = elim (Bool-cases (leb (length s) max)) [
  | inl short ↦ rw short (record {
    prefix = sym (take_all (length s) s (omega arith));
    bounded = leb→le _ _ short;
    valid = h;
    longest = λ i p q u. q;
  })
  | inr long ↦ rw long (take-IsCut s max h (ground arith))
]
