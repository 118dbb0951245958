-- ===== src/Web/Respond/Decimal.antt =====
-- A number is read back from its digits.
use allgres.Base.{
  ℕ, zero, suc, ◌+◌, ◌/◌, ◌%◌, ◌<◌, Bool, true, [], ◌∷◌, some, ◌≡◌, refl, ◌∙◌, arith, ltb, within,
  all, length, Bool-cases, inl, inr,
}
use allgres.Bytes.{Bytes}
use allgres.Http.{parse_usize, parse_digits, usize_mod}
use allgres.Web.Respond.{digits_onto, decimal}

abbrev pub is_digit : ℕ → Bool
is_digit c = within b'0' b'9' c

digits_onto-digits :
    (fuel n : ℕ) (s : Bytes) → all is_digit s ≡ true → all is_digit (digits_onto fuel n s) ≡ true
unfolding digits_onto
digits_onto-digits zero n s h = h
digits_onto-digits (suc fuel) n s h =
    ground (arith, digits_onto-digits fuel (n / 10) ((b'0' + n % 10) ∷ s))

parse_digits-digits_onto :
    (fuel n : ℕ) (s : Bytes)
    → n < fuel
    → n < usize_mod
    → parse_digits 0 (digits_onto fuel n s) ≡ parse_digits n s
unfolding digits_onto parse_digits
parse_digits-digits_onto zero n s f h = absurd (omega arith)
parse_digits-digits_onto (suc fuel) n s f h = elim (Bool-cases (ltb n 10)) [
  | inl e ↦ rw e (ground arith)
  | inr e ↦ rw e (
      parse_digits-digits_onto fuel (n / 10) ((b'0' + n % 10) ∷ s) (ground arith) (ground arith)
      ∙ ground arith)
]

digits_onto_pos : (fuel n : ℕ) (s : Bytes) → 0 < fuel + length s → 0 < length (digits_onto fuel n s)
unfolding digits_onto
digits_onto_pos zero n s h = omega arith
digits_onto_pos (suc fuel) n s h =
    ground (arith, digits_onto_pos fuel (n / 10) ((b'0' + n % 10) ∷ s))

parse_usize-digits :
    (s : Bytes) → 0 < length s → all is_digit s ≡ true → parse_usize s ≡ parse_digits 0 s
unfolding parse_usize
parse_usize-digits [] n h = absurd (omega arith)
parse_usize-digits (c ∷ s) n h = ground arith

pub parse_usize-decimal : (n : ℕ) → n < usize_mod → parse_usize (decimal n) ≡ some n
unfolding decimal
parse_usize-decimal n h =
    parse_usize-digits (digits_onto (suc n) n []) (digits_onto_pos (suc n) n [] (omega arith))
      (digits_onto-digits (suc n) n [] refl)
    ∙ parse_digits-digits_onto (suc n) n [] (omega arith) h
    ∙ (unfold parse_digits in refl)

pub decimal-digits : (n : ℕ) → all is_digit (decimal n) ≡ true
unfolding decimal
decimal-digits n = digits_onto-digits (suc n) n [] refl

pub decimal_pos : (n : ℕ) → 0 < length (decimal n)
unfolding decimal
decimal_pos n = digits_onto_pos (suc n) n [] (omega arith)
