-- ===== src/Base/Bits.antt =====
-- Bits: when an `or` and a `xor` are zero, and `and` over a fixed width. The native operations mean recursions on the digits, with the first number as fuel.
use Prim.Native.Nat.{
  ℕ, zero, suc, ◌+◌, ◌*◌, ◌/◌, ◌%◌, ◌^◌, ◌≤◌, ◌<◌, min, max, bit_and, bit_or, bit_xor, digits,
  differ, bit_and-bitwise, bit_or-bitwise, bit_xor-bitwise,
}
use mathlib.Core.Path.{◌≡◌, refl, sym, ◌∙◌}
use allgres.Base.Tests.{◌==◌, if◌then◌else◌}
use native.Mathlib.Omega.{arith}

or_digits-eq-zero : (n a b : ℕ) → a ≤ n → digits (λ c. c) max n a b ≡ 0 → (a ≡ 0) × (b ≡ 0)
or_digits-eq-zero zero a b h e = (omega arith, e)
or_digits-eq-zero (suc n) zero b h e = (refl, e)
or_digits-eq-zero (suc n) (suc a) b h e =
    omega (arith, or_digits-eq-zero n (suc a / 2) (b / 2) (omega arith) (omega arith))

pub bit_or-eq-zero : (a b : ℕ) → bit_or a b ≡ 0 → (a ≡ 0) × (b ≡ 0)
bit_or-eq-zero a b e = or_digits-eq-zero a a b (omega arith) (sym (bit_or-bitwise a b) ∙ e)

pub zero-bit_or : (b : ℕ) → bit_or 0 b ≡ b
zero-bit_or b = bit_or-bitwise 0 b

differ-eq-zero : (a b : ℕ) → differ a b ≡ 0 → a ≡ b
differ-eq-zero zero b e = sym e
differ-eq-zero (suc a) zero e = e
differ-eq-zero (suc a) (suc b) e = omega (arith, differ-eq-zero a b e)

differ_self : (a : ℕ) → differ a a ≡ 0
differ_self zero = refl
differ_self (suc a) = differ_self a

xor_digits-eq-zero : (n a b : ℕ) → a ≤ n → digits (λ c. c) differ n a b ≡ 0 → a ≡ b
xor_digits-eq-zero zero a b h e = omega arith
xor_digits-eq-zero (suc n) zero b h e = sym e
xor_digits-eq-zero (suc n) (suc a) b h e = omega (
  arith,
  xor_digits-eq-zero n (suc a / 2) (b / 2) (omega arith) (omega arith),
  differ-eq-zero (suc a % 2) (b % 2) (omega arith),
)

pub bit_xor-eq-zero : (a b : ℕ) → bit_xor a b ≡ 0 → a ≡ b
bit_xor-eq-zero a b e = xor_digits-eq-zero a a b (omega arith) (sym (bit_xor-bitwise a b) ∙ e)

xor_digits_self : (n a : ℕ) → a ≤ n → digits (λ c. c) differ n a a ≡ 0
xor_digits_self zero a h = omega arith
xor_digits_self (suc n) zero h = refl
xor_digits_self (suc n) (suc a) h =
    omega (arith, xor_digits_self n (suc a / 2) (omega arith), differ_self (suc a % 2))

pub bit_xor_self : (a : ℕ) → bit_xor a a ≡ 0
bit_xor_self a = bit_xor-bitwise a a ∙ xor_digits_self a a (omega arith)

-- `and` of the lowest `w` digits.
unfoldable pub and_low : ℕ → ℕ → ℕ → ℕ
and_low zero a b = 0
and_low (suc w) a b = (if b % 2 == 0 then 0 else a % 2) + 2 * and_low w (a / 2) (b / 2)

and_low_none : (w b : ℕ) → and_low w 0 b ≡ 0
unfolding and_low
and_low_none zero b = refl
and_low_none (suc w) b = ground (arith, and_low_none w (b / 2))

digits-and_low :
    (w fuel a b : ℕ) → a < 2 ^ w → a ≤ fuel → digits (λ c. 0) min fuel a b ≡ and_low w a b
unfolding and_low
digits-and_low w zero zero b wide enough = sym (and_low_none w b)
digits-and_low w (suc fuel) zero b wide enough = sym (and_low_none w b)
digits-and_low w zero (suc a) b wide enough = absurd (omega arith)
digits-and_low zero (suc fuel) (suc a) b wide enough = absurd (omega arith)
digits-and_low (suc w) (suc fuel) (suc a) b wide enough =
    ground (arith, digits-and_low w fuel (suc a / 2) (b / 2) (omega arith) (omega arith))

-- Of a number of `w` digits, no other digits count.
pub bit_and-and_low : (w a b : ℕ) → a < 2 ^ w → bit_and a b ≡ and_low w a b
bit_and-and_low w a b wide = bit_and-bitwise a b ∙ digits-and_low w a a b wide (omega arith)
