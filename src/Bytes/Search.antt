-- ===== src/Bytes/Search.antt =====
-- `str::find`, `contains` and `windows(n).position(..)`: the first place of a needle.
use mathlib.Core.Option
use allgres.Base.{
  length-drop, ℕ, zero, suc, ◌+◌, ◌≤◌, Bool, true, false, ◌||◌, [], ◌∷◌, Option, none, some, ◌≡◌,
  arith, if◌then◌else◌, length, take, drop, Option-cases, inl, inr, ◌++◌, refl,
}
use allgres.Bytes.{Bytes}
use allgres.Bytes.Compare.{starts_with}

unfoldable pub contains : Bytes → Bytes → Bool
contains n [] = starts_with n []
contains n (c ∷ s) = starts_with n (c ∷ s) || contains n s

unfoldable pub find : Bytes → Bytes → Option ℕ
find n [] = if starts_with n [] then some 0 else none
find n (c ∷ s) = if starts_with n (c ∷ s) then some 0 else Option.map suc (find n s)

-- The text behind the first occurrence, `&s[s.find(n)? + n.len()..]`.
unfoldable pub after : Bytes → Bytes → Option Bytes
after n s = Option.map (λ p. drop (p + length n) s) (find n s)

pub find-eq-none : (n s : Bytes) → contains n s ≡ false → find n s ≡ none
unfolding contains find
find-eq-none n [] h = ground arith
find-eq-none n (c ∷ s) h = ground (arith, find-eq-none n s)

pub find-le : (n s : Bytes) (p : ℕ) → find n s ≡ some p → p ≤ length s
unfolding find
find-le n [] p h = ground arith
find-le n (c ∷ s) zero h = omega arith
find-le n (c ∷ s) (suc p) h = ground (arith, find-le n s p)

-- The text before the first occurrence, all of it where there is none.
unfoldable pub before : Bytes → Bytes → Bytes
before n s = elim (find n s) [ none ↦ s | some p ↦ take p s ]

pub starts_with-length : (n s : Bytes) → starts_with n s ≡ true → length n ≤ length s
unfolding starts_with
starts_with-length [] s h = omega arith
starts_with-length (p ∷ n) [] h = ground arith
starts_with-length (p ∷ n) (c ∷ s) h = ground (arith, starts_with-length n s)

pub find-fits : (n s : Bytes) (p : ℕ) → find n s ≡ some p → p + length n ≤ length s
unfolding find
find-fits n [] p h = ground (arith, starts_with-length n [])
find-fits n (c ∷ s) zero h = ground (arith, starts_with-length n (c ∷ s))
find-fits n (c ∷ s) (suc p) h = ground (arith, find-fits n s p)

-- What is behind an occurrence is shorter than the text.
pub length-after : (n s r : Bytes) → after n s ≡ some r → length r + length n ≤ length s
unfolding after
length-after n s r h = elim (Option-cases (find n s)) [
  | inl e ↦ ground arith
  | inr (p, e) ↦ ground (arith, find-fits n s p, length-drop (p + length n) s)
]

starts_with_more : (n s t : Bytes) → length n ≤ length s → starts_with n (s ++ t) ≡ starts_with n s
unfolding starts_with
starts_with_more [] s t h = refl
starts_with_more (p ∷ n) [] t h = absurd (omega arith)
starts_with_more (p ∷ n) (c ∷ s) t h = rw (starts_with_more n s t (omega arith)) refl

-- What follows does not move the first occurrence.
pub find-append : (n s t : Bytes) (p : ℕ) → find n s ≡ some p → find n (s ++ t) ≡ some p
unfolding find
find-append n [] [] p h = h
find-append n [] (c ∷ t) p h =
    ground (arith, starts_with_more n [] (c ∷ t), starts_with-length n [])
find-append n (c ∷ s) t zero h =
    ground (arith, starts_with_more n (c ∷ s) t, starts_with-length n (c ∷ s))
find-append n (c ∷ s) t (suc p) h =
    ground (arith, starts_with_more n (c ∷ s) t, find-fits n s p, find-append n s t p)
