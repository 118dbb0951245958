-- ===== src/Sql/Token.antt =====
-- Whatever way a value is escaped, its token is read back.
use allgres.Base.{
  ℕ, zero, suc, ◌+◌, ◌<◌, true, false, some, [], ◌∷◌, ◌++◌, ◌≡◌, ◌≢◌, refl, ◌∙◌, arith, length,
  length-append, append_assoc,
}
use mathlib.Core.Option
use allgres.Bytes.{Bytes, lit}
use allgres.Bytes.Compare.{starts_with}
use allgres.Utf8.{char_len}
use allgres.Sql.{is_delimiter, take_one, token_from, read_token}

-- A text that stands for a value: each ASCII character is escaped by a backslash or, unless it is a
-- delimiter or a backslash, stands for itself, and so does each character of several bytes.
pub data Escapes : Bytes → Bytes → Type 0 where
  nothing : Escapes [] []
  plain :
      {c : ℕ} {v t : Bytes}
      → c < 0x80
      → c ≢ b'\\'
      → is_delimiter c ≡ false
      → Escapes v t
      → Escapes (c ∷ v) (c ∷ t)
  escaped : {c : ℕ} {v t : Bytes} → c < 0x80 → Escapes v t → Escapes (c ∷ v) (b'\\' ∷ c ∷ t)
  wide :
      {c : ℕ} (cs : Bytes) {v t : Bytes}
      → 0x80 < c
      → cs ≢ []
      → ((s : Bytes) → char_len (c ∷ (cs ++ s)) ≡ suc (length cs))
      → Escapes v t
      → Escapes (c ∷ (cs ++ v)) (c ∷ (cs ++ t))

-- The token ends here.
abbrev pub AtEnd : Bytes → Type 0
AtEnd [] = Unit
AtEnd (c ∷ s) = (c ≢ b'\\') × (is_delimiter c ≡ true)

token_from-end : (s : Bytes) → AtEnd s → token_from zero s ≡ some ([], 0)
unfolding token_from
token_from-end [] h = refl
token_from-end (c ∷ []) h = ground arith
token_from-end (c ∷ e ∷ s) h = ground arith

token_from-plain :
    (c : ℕ) (s : Bytes)
    → c < 0x80
    → c ≢ b'\\'
    → is_delimiter c ≡ false
    → token_from zero (c ∷ s) ≡ take_one c (token_from zero s)
unfolding token_from
token_from-plain c [] l n d = ground arith
token_from-plain c (e ∷ s) l n d = ground arith

token_from-escaped :
    (c : ℕ) (s : Bytes)
    → c < 0x80
    → token_from zero (b'\\' ∷ c ∷ s)
      ≡ Option.map (λ t. (c ∷ t.0, suc (suc t.1))) (token_from zero s)
unfolding token_from
token_from-escaped c s l = ground arith

token_from-copied :
    (cs s v : Bytes) (n : ℕ)
    → token_from zero s ≡ some (v, n)
    → token_from (length cs) (cs ++ s) ≡ some (cs ++ v, length cs + n)
unfolding token_from
token_from-copied [] s v n h = ground arith
token_from-copied (c ∷ cs) s v n h = rw (token_from-copied cs s v n h) (ground arith)

token_from-wide :
    (c : ℕ) (cs s v : Bytes) (n : ℕ)
    → 0x80 < c
    → cs ≢ []
    → char_len (c ∷ (cs ++ s)) ≡ suc (length cs)
    → token_from zero s ≡ some (v, n)
    → token_from zero (c ∷ (cs ++ s)) ≡ some (c ∷ (cs ++ v), suc (length cs + n))
unfolding token_from
token_from-wide c [] s v n l ne w h = absurd (ne refl)
token_from-wide c (d ∷ cs) s v n l ne w h =
    rw (w, token_from) (rw (token_from-copied (d ∷ cs) s v n h) (ground arith))

token_from-Escapes :
    {v t : Bytes} (rest : Bytes)
    → Escapes v t
    → AtEnd rest
    → token_from zero (t ++ rest) ≡ some (v, length t)
token_from-Escapes rest nothing h = token_from-end rest h
token_from-Escapes rest (plain {c = c} {t = t} l n d m) h =
    token_from-plain c (t ++ rest) l n d ∙ rw (token_from-Escapes rest m h) refl
token_from-Escapes rest (escaped {c = c} {t = t} l m) h =
    token_from-escaped c (t ++ rest) l ∙ rw (token_from-Escapes rest m h) refl
token_from-Escapes rest (wide {c = c} cs {v = v} {t = t} l ne w m) h =
    rw (append_assoc cs t rest, length-append cs t)
      (token_from-wide c cs (t ++ rest) v (length t) l ne (w (t ++ rest))
        (token_from-Escapes rest m h))

-- However the characters of a value are escaped, the reader gives the value and the length of the
-- text, up to the delimiter or the end that follows; unless the text starts like the two that
-- stand for no value and for an empty one.
pub read_token-Escapes :
    {v t : Bytes} (rest : Bytes)
    → Escapes v t
    → AtEnd rest
    → starts_with (lit "<>") (t ++ rest) ≡ false
    → starts_with (lit "\"\"") (t ++ rest) ≡ false
    → read_token (t ++ rest) ≡ some (some v, length t)
unfolding read_token
read_token-Escapes {t = t} rest m h p q = rw (p, q, token_from-Escapes rest m h) refl
