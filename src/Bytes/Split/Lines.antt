-- ===== src/Bytes/Split/Lines.antt =====
-- Lines that end with "\r\n" are given back, by `lines` and by the search for the blank line.
use mathlib.Core.Option
use allgres.Base.{
  ℕ, ◌+◌, Bool, true, ◌&&◌, not, [], ◌∷◌, ◌++◌, some, ◌≡◌, refl, ap, ◌∙◌, arith, ◌==◌, all,
  append_assoc, append-nil, length, Option-cases, inl, inr, ==_iff,
}
use allgres.Bytes.{Bytes}
use allgres.Bytes.Compare.{starts_with}
use allgres.Bytes.Search.{find}
use allgres.Bytes.Split.{strip_cr, lines_from, lines, split_once}

-- A byte that ends no line.
abbrev pub in_line : ℕ → Bool
in_line c = not (c == 13) && not (c == 10)

strip_cr-append : (l : Bytes) → strip_cr (l ++ 13 ∷ []) ≡ l
strip_cr-append [] = refl
strip_cr-append (c ∷ []) = refl
strip_cr-append (c ∷ d ∷ s) = ap (◌∷◌ c) (strip_cr-append (d ∷ s))

lines_from-append :
    (cur l rest : Bytes)
    → all in_line l ≡ true
    → lines_from cur (l ++ 13 ∷ 10 ∷ rest) ≡ (cur ++ l) ∷ lines_from [] rest
unfolding lines_from
lines_from-append cur [] rest h = rw (strip_cr-append cur, append-nil) refl
lines_from-append cur (c ∷ l) rest h =
    ground (arith, lines_from-append (cur ++ c ∷ []) l rest, append_assoc cur (c ∷ []) l)

pub lines-append :
    (l rest : Bytes) → all in_line l ≡ true → lines (l ++ 13 ∷ 10 ∷ rest) ≡ l ∷ lines rest
unfolding lines
lines-append l rest h = lines_from-append [] l rest h

-- A line holds no carriage return, so that the blank line is not found before its end.
pub find-line :
    (n l s : Bytes) {p : ℕ}
    → all in_line l ≡ true
    → find (13 ∷ n) s ≡ some p
    → find (13 ∷ n) (l ++ s) ≡ some (length l + p)
unfolding find starts_with
find-line n [] s h e = e ∙ ap some (omega arith)
find-line n (c ∷ l) s h e = ground (arith, find-line n l s (ground arith) e)

-- Up to the first `d`, all of a text without one.
pub split_once-append :
    (d : ℕ) (a s : Bytes)
    → all (λ c. not (c == d)) a ≡ true
    → split_once d (a ++ s) ≡ Option.map (λ p. (a ++ p.0, p.1)) (split_once d s)
unfolding split_once
split_once-append d [] s h = elim (Option-cases (split_once d s)) [
  | inl e ↦ rw (e, Option.map) refl
  | inr (p, e) ↦ rw (e, Option.map) refl
]
split_once-append d (c ∷ a) s h = ground (arith, split_once-append d a s)

pub lines-nil : lines [] ≡ []
unfolding lines
lines-nil = refl

pub split_once_at :
    (d : ℕ) (a s : Bytes)
    → all (λ c. not (c == d)) a ≡ true
    → split_once d (a ++ d ∷ s) ≡ some (a, s)
unfolding split_once
split_once_at d [] s h = rw ((==_iff d d).1 refl) refl
split_once_at d (c ∷ a) s h = ground (arith, split_once_at d a s)
