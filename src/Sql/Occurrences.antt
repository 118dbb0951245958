-- ===== src/Sql/Occurrences.antt =====
-- The search loops find every occurrence of a needle that does not overlap with itself.
use allgres.Base.{
  drop-append, drop-length, length-drop, ℕ, zero, suc, ◌+◌, ◌≤◌, ◌<◌, true, false, not, some, List,
  [], ◌∷◌, ◌++◌, ◌≡◌, ◌⊎◌, inl, inr, refl, ap, ◌∙◌, arith, ◌==◌, length, drop, all, Bool-cases,
  Option-cases, length-append,
}
use allgres.Bytes.{Bytes}
use allgres.Bytes.Compare.{starts_with, starts_with-append}
use allgres.Bytes.Search.{find, after}
use allgres.Sql.{occurrences_from, occurrences}

-- The element stands in the list.
abbrev pub Among : {A : Type 0} → A → List A → Type 0
Among a [] = ⊥
Among a (x ∷ xs) = (a ≡ x) ⊎ Among a xs

-- The first byte of the needle does not come again in it.
abbrev pub IsDistinct : ℕ → Bytes → Type 0
IsDistinct h m = all (λ x. not (x == h)) m ≡ true

starts_with-length_le :
    (h : ℕ) (m a t : Bytes)
    → IsDistinct h m
    → starts_with m (a ++ h ∷ t) ≡ true
    → length m ≤ length a
unfolding starts_with
starts_with-length_le h [] a t d e = omega arith
starts_with-length_le h (x ∷ m) [] t d e = ground arith
starts_with-length_le h (x ∷ m) (y ∷ a) t d e = ground (arith, starts_with-length_le h m a t)

pub after_here : (n s : Bytes) → starts_with n s ≡ true → after n s ≡ some (drop (length n) s)
unfolding after find
after_here n [] h = ground arith
after_here n (c ∷ s) h = ground arith

drop_shift :
    (p : ℕ) (n : Bytes) (c : ℕ) (s : Bytes)
    → drop (suc p + length n) (c ∷ s) ≡ drop (p + length n) s
drop_shift p n c s =
    let shift : suc p + length n ≡ suc (p + length n) = omega arith in
    ap (λ k. drop k (c ∷ s)) shift

pub after_there :
    (n : Bytes) (c : ℕ) (s : Bytes) → starts_with n (c ∷ s) ≡ false → after n (c ∷ s) ≡ after n s
unfolding after find
after_there n c s h = elim (Option-cases (find n s)) [
  | inl e ↦ rw (h, e, find) refl
  | inr (p, e) ↦ rw (h, e, find) (ap some (drop_shift p n c s))
]

-- Searching a text that holds the needle finds that occurrence, or one before it.
after-append :
    (h : ℕ) (m a b : Bytes)
    → IsDistinct h m
    → (after (h ∷ m) (a ++ ((h ∷ m) ++ b)) ≡ some b)
      ⊎ ((a' : Bytes) × (after (h ∷ m) (a ++ ((h ∷ m) ++ b)) ≡ some (a' ++ ((h ∷ m) ++ b)))
          × (length a' < length a))
after-append h m [] b d = inl (
    after_here (h ∷ m) ((h ∷ m) ++ b) (starts_with-append (h ∷ m) b)
    ∙ ap some (drop-length (h ∷ m) b))
after-append h m (x ∷ a) b d = elim (Bool-cases (starts_with (h ∷ m) (x ∷ (a ++ ((h ∷ m) ++ b))))) [
  | inl e ↦
      let short = starts_with-length_le h m a (m ++ b) d (unfold starts_with in ground arith) in
      inr (
        drop (length m) a,
        after_here (h ∷ m) (x ∷ (a ++ ((h ∷ m) ++ b))) e
            ∙ ap some (drop-append (length m) a ((h ∷ m) ++ b) short),
        omega (arith, length-drop (length m) a),
      )
  | inr e ↦ elim (after-append h m a b d) [
    | inl f ↦ inl (after_there (h ∷ m) x (a ++ ((h ∷ m) ++ b)) e ∙ f)
    | inr (a', f, l) ↦ inr (a', after_there (h ∷ m) x (a ++ ((h ∷ m) ++ b)) e ∙ f, omega arith)
  ]
]

occurrences_from-append :
    (fuel h : ℕ) (m a b : Bytes)
    → IsDistinct h m
    → length a < fuel
    → Among b (occurrences_from fuel (h ∷ m) (a ++ ((h ∷ m) ++ b)))
unfolding occurrences_from
occurrences_from-append zero h m a b d f = absurd (omega arith)
occurrences_from-append (suc fuel) h m a b d f = elim (after-append h m a b d) [
  | inl e ↦ rw (e, occurrences_from) (inl refl)
  | inr (a', e, l) ↦
      rw (e, occurrences_from) (inr (occurrences_from-append fuel h m a' b d (omega arith)))
]

-- A needle whose first byte does not come again in it is found wherever it stands in the text.
pub occurrences-append :
    (h : ℕ) (m a b : Bytes) → IsDistinct h m → Among b (occurrences (h ∷ m) (a ++ ((h ∷ m) ++ b)))
unfolding occurrences
occurrences-append h m a b d =
    occurrences_from-append (suc (length (a ++ ((h ∷ m) ++ b)))) h m a b d
      (omega (arith, length-append a ((h ∷ m) ++ b)))
