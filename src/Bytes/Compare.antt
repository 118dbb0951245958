-- ===== src/Bytes/Compare.antt =====
-- Equality of byte strings, with and without regard to ASCII case, and prefixes.
use allgres.Base.{
  Bool, true, false, ◌&&◌, [], ◌∷◌, ◌++◌, Option, none, some, ◌≡◌, refl, ◌↔◌, arith, ◌==◌,
  if◌then◌else◌, Key, map,
}
use allgres.Bytes.{Bytes, lower, upper}

unfoldable pub same : Bytes → Bytes → Bool
same [] [] = true
same (x ∷ a) (y ∷ b) = x == y && same a b
same _ _ = false

pub same_iff : (a b : Bytes) → (same a b ≡ true) ↔ (a ≡ b)
unfolding same
same_iff (x ∷ a) (y ∷ b) = ground (arith, same_iff a b)
same_iff _ _ = ground arith

pub same_refl : (a : Bytes) → same a a ≡ true
same_refl a = (same_iff a a).1 refl

instance abbrev pub bytes_key : Key Bytes
bytes_key = record { same = same; same_iff = same_iff }

-- `to_ascii_lowercase`, `to_ascii_uppercase`
abbrev pub to_lower : Bytes → Bytes
to_lower = map lower

abbrev pub to_upper : Bytes → Bytes
to_upper = map upper

-- `eq_ignore_ascii_case`
unfoldable pub same_ignoring_case : Bytes → Bytes → Bool
same_ignoring_case a b = same (to_lower a) (to_lower b)

pub same_ignoring_case_iff :
    (a b : Bytes) → (same_ignoring_case a b ≡ true) ↔ (to_lower a ≡ to_lower b)
unfolding same_ignoring_case
same_ignoring_case_iff a b = same_iff (to_lower a) (to_lower b)

-- `strip_prefix`
unfoldable pub strip_prefix : Bytes → Bytes → Option Bytes
strip_prefix [] s = some s
strip_prefix (p ∷ ps) [] = none
strip_prefix (p ∷ ps) (c ∷ s) = if p == c then strip_prefix ps s else none

pub strip_prefix-append : (p s : Bytes) → strip_prefix p (p ++ s) ≡ some s
unfolding strip_prefix
strip_prefix-append [] s = refl
strip_prefix-append (p ∷ ps) s = ground (arith, strip_prefix-append ps s)

pub strip_prefix-eq-some : (p s r : Bytes) → strip_prefix p s ≡ some r → s ≡ p ++ r
unfolding strip_prefix
strip_prefix-eq-some [] s r e = ground arith
strip_prefix-eq-some (p ∷ ps) [] r e = ground arith
strip_prefix-eq-some (p ∷ ps) (c ∷ s) r e = ground (arith, strip_prefix-eq-some ps s r)

-- `starts_with`
unfoldable pub starts_with : Bytes → Bytes → Bool
starts_with [] s = true
starts_with (p ∷ ps) [] = false
starts_with (p ∷ ps) (c ∷ s) = p == c && starts_with ps s

pub starts_with-append : (p s : Bytes) → starts_with p (p ++ s) ≡ true
unfolding starts_with
starts_with-append [] s = refl
starts_with-append (p ∷ ps) s = ground (arith, starts_with-append ps s)

pub strip_prefix-starts_with :
    (p s : Bytes) → starts_with p s ≡ true → (r : Bytes) × (strip_prefix p s ≡ some r)
unfolding starts_with strip_prefix
strip_prefix-starts_with [] s h = (s, refl)
strip_prefix-starts_with (p ∷ ps) [] h = ground arith
strip_prefix-starts_with (p ∷ ps) (c ∷ s) h = ground (arith, strip_prefix-starts_with ps s)
