-- ===== src/Bytes/Split/Words.antt =====
-- Words without white characters are given back by `split_whitespace`.
use allgres.Base.{
  within, ℕ, zero, Bool, true, ◌&&◌, [], ◌∷◌, ◌++◌, ◌≡◌, ◌<◌, length, refl, ap, ◌∙◌, arith, ◌==◌,
  append_assoc, append-nil, List, all,
}
use allgres.Bytes.{Bytes}
use allgres.Bytes.Split.Lines.{in_line}
use allgres.Bytes.Split.{
  trim_end, trim_from, white_len, push_word, words_from, split_whitespace, trim, trim_from,
}

-- No white character stands anywhere in the text.
unfoldable pub no_white : Bytes → Bool
no_white [] = true
no_white (c ∷ s) = white_len (c ∷ s) == 0 && no_white s

-- A space behind a text makes no white character with its end.
white_len_space : (c : ℕ) (s t : Bytes) → white_len (c ∷ s) ≡ 0 → white_len (c ∷ s ++ 32 ∷ t) ≡ 0
unfolding white_len
white_len_space c [] t h = ground arith
white_len_space c (d ∷ []) t h = ground arith
white_len_space c (d ∷ e ∷ s) t h = h

no_white_head : (c : ℕ) (s : Bytes) → no_white (c ∷ s) ≡ true → white_len (c ∷ s) ≡ 0
unfolding no_white
no_white_head c s h = ground arith

no_white_tail : (c : ℕ) (s : Bytes) → no_white (c ∷ s) ≡ true → no_white s ≡ true
unfolding no_white
no_white_tail c s h = ground arith

words_from_here :
    (cur t : Bytes) → words_from zero cur (32 ∷ t) ≡ push_word cur (words_from zero [] t)
unfolding words_from white_len
words_from_here cur t = refl

words_from_space :
    (cur w t : Bytes)
    → no_white w ≡ true
    → words_from zero cur (w ++ 32 ∷ t) ≡ push_word (cur ++ w) (words_from zero [] t)
unfolding words_from
words_from_space cur [] t h = rw append-nil (words_from_here cur t)
words_from_space cur (c ∷ w) t h =
    rw (white_len_space c w t (no_white_head c w h), words_from)
      (words_from_space (cur ++ c ∷ []) w t (no_white_tail c w h)
        ∙ ap (λ z. push_word z (words_from zero [] t)) (append_assoc cur (c ∷ []) w))

-- A space before a text is trimmed.
pub trim_space : (s : Bytes) → trim (32 ∷ s) ≡ trim s
unfolding trim trim_from white_len
trim_space s = refl

-- Two words and what follows them, with a space between each.
pub split_whitespace_words :
    (v w x : Bytes)
    → 0 < length v
    → 0 < length w
    → no_white v ≡ true
    → no_white w ≡ true
    → (ws : List Bytes) × (split_whitespace (v ++ 32 ∷ (w ++ 32 ∷ x)) ≡ v ∷ w ∷ ws)
unfolding split_whitespace
split_whitespace_words [] w x m n h k = absurd (omega arith)
split_whitespace_words (c ∷ v) [] x m n h k = absurd (omega arith)
split_whitespace_words (c ∷ v) (d ∷ w) x m n h k = (
  words_from zero [] x,
  words_from_space [] (c ∷ v) ((d ∷ w) ++ 32 ∷ x) h
      ∙ ap (push_word (c ∷ v)) (words_from_space [] (d ∷ w) x k),
)

-- A word is within a line.
pub no_white-in_line : (w : Bytes) → no_white w ≡ true → all in_line w ≡ true
unfolding no_white white_len
no_white-in_line [] h = refl
no_white-in_line (c ∷ w) h = ground (arith, no_white-in_line w (no_white_tail c w h))

trim_lem : (s : Bytes) → trim s ≡ trim_end (trim_from zero s)
unfolding trim
trim_lem s = refl

trim_from_word : (w : Bytes) → no_white w ≡ true → trim_from zero w ≡ w
unfolding trim_from
trim_from_word [] h = refl
trim_from_word (c ∷ w) h = rw (no_white_head c w h, trim_from) refl

trim_end_word : (w : Bytes) → no_white w ≡ true → trim_end w ≡ w
unfolding trim_end
trim_end_word [] h = refl
trim_end_word (c ∷ w) h =
    rw (trim_from_word (c ∷ w) h, trim_end) (ap (◌∷◌ c) (trim_end_word w (no_white_tail c w h)))

-- Nothing is trimmed off a word.
pub trim_word : (w : Bytes) → no_white w ≡ true → trim w ≡ w
trim_word w h = trim_lem w ∙ ap trim_end (trim_from_word w h) ∙ trim_end_word w h

-- Characters from `!` to `~` are not white.
pub graphic-no_white : (w : Bytes) → all (within 33 126) w ≡ true → no_white w ≡ true
unfolding no_white white_len
graphic-no_white [] h = refl
graphic-no_white (c ∷ w) h = ground (arith, graphic-no_white w)
