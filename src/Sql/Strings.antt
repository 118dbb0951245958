-- ===== src/Sql/Strings.antt =====
-- src/sql_parser.rs `quoted_strings`: the names in a list are read back.
use allgres.Base.{
  ℕ, suc, ◌<◌, not, ◌==◌, true, some, none, List, [], ◌∷◌, ◌++◌, ◌≡◌, ◌≢◌, refl, sym, ap, ◌∙◌,
  arith, length, all, append-nil, append_assoc,
}
use allgres.Bytes.{Bytes}
use allgres.Utf8.{char_len}
use allgres.Sql.{quoted_from, quoted_strings, push_string}

-- A text within quotes that stands for a name: a backslash or a quote is escaped, any other
-- character may be.
pub data Quotes : Bytes → Bytes → Type 0 where
  nothing : Quotes [] []
  plain :
      {c : ℕ} {v t : Bytes} → c < 0x80 → c ≢ b'\\' → c ≢ b'"' → Quotes v t → Quotes (c ∷ v) (c ∷ t)
  escaped : {c : ℕ} {v t : Bytes} → c < 0x80 → Quotes v t → Quotes (c ∷ v) (b'\\' ∷ c ∷ t)
  wide :
      {c : ℕ} (cs : Bytes) {v t : Bytes}
      → 0x80 < c
      → cs ≢ []
      → ((s : Bytes) → char_len (c ∷ (cs ++ s)) ≡ suc (length cs))
      → Quotes v t
      → Quotes (c ∷ (cs ++ v)) (c ∷ (cs ++ t))

quoted_from-close :
    (cur s : Bytes) → quoted_from (some cur) 0 (b'"' ∷ s) ≡ push_string cur (quoted_from none 0 s)
unfolding quoted_from
quoted_from-close cur [] = refl
quoted_from-close cur (e ∷ s) = refl

quoted_from-plain :
    (cur : Bytes) (c : ℕ) (s : Bytes)
    → c < 0x80
    → c ≢ b'\\'
    → c ≢ b'"'
    → quoted_from (some cur) 0 (c ∷ s) ≡ quoted_from (some (cur ++ c ∷ [])) 0 s
unfolding quoted_from
quoted_from-plain cur c [] l n q = ground arith
quoted_from-plain cur c (e ∷ s) l n q = ground arith

quoted_from-escaped :
    (cur : Bytes) (c : ℕ) (s : Bytes)
    → c < 0x80
    → quoted_from (some cur) 0 (b'\\' ∷ c ∷ s) ≡ quoted_from (some (cur ++ c ∷ [])) 0 s
unfolding quoted_from
quoted_from-escaped cur c s l = ground arith

quoted_from-copied :
    (cur cs s : Bytes)
    → quoted_from (some cur) (length cs) (cs ++ s) ≡ quoted_from (some (cur ++ cs)) 0 s
unfolding quoted_from
quoted_from-copied cur [] s = ap (λ t. quoted_from (some t) 0 s) (sym (append-nil cur))
quoted_from-copied cur (c ∷ cs) s =
    quoted_from-copied (cur ++ c ∷ []) cs s
    ∙ ap (λ t. quoted_from (some t) 0 s) (append_assoc cur (c ∷ []) cs)

quoted_from-wide :
    (cur : Bytes) (c : ℕ) (cs s : Bytes)
    → 0x80 < c
    → cs ≢ []
    → char_len (c ∷ (cs ++ s)) ≡ suc (length cs)
    → quoted_from (some cur) 0 (c ∷ (cs ++ s)) ≡ quoted_from (some (cur ++ c ∷ cs)) 0 s
unfolding quoted_from
quoted_from-wide cur c [] s l ne w = absurd (ne refl)
quoted_from-wide cur c (d ∷ cs) s l ne w =
    rw (w, quoted_from)
      (ground arith
        ∙ (quoted_from-copied (cur ++ c ∷ []) (d ∷ cs) s
            ∙ ap (λ t. quoted_from (some t) 0 s) (append_assoc cur (c ∷ []) (d ∷ cs))))

quoted_from-Quotes :
    {v t : Bytes} (cur s : Bytes)
    → Quotes v t
    → quoted_from (some cur) 0 (t ++ b'"' ∷ s) ≡ push_string (cur ++ v) (quoted_from none 0 s)
quoted_from-Quotes cur s nothing =
    quoted_from-close cur s ∙ ap (λ x. push_string x (quoted_from none 0 s)) (sym (append-nil cur))
quoted_from-Quotes cur s (plain {c = c} {v = v} {t = t} l n q m) =
    quoted_from-plain cur c (t ++ b'"' ∷ s) l n q
    ∙ (quoted_from-Quotes (cur ++ c ∷ []) s m
        ∙ ap (λ x. push_string x (quoted_from none 0 s)) (append_assoc cur (c ∷ []) v))
quoted_from-Quotes cur s (escaped {c = c} {v = v} {t = t} l m) =
    quoted_from-escaped cur c (t ++ b'"' ∷ s) l
    ∙ (quoted_from-Quotes (cur ++ c ∷ []) s m
        ∙ ap (λ x. push_string x (quoted_from none 0 s)) (append_assoc cur (c ∷ []) v))
quoted_from-Quotes cur s (wide {c = c} cs {v = v} {t = t} l ne w m) =
    ap (λ x. quoted_from (some cur) 0 (c ∷ x)) (append_assoc cs t (b'"' ∷ s))
    ∙ (quoted_from-wide cur c cs (t ++ b'"' ∷ s) l ne (w (t ++ b'"' ∷ s))
        ∙ (quoted_from-Quotes (cur ++ c ∷ cs) s m
            ∙ ap (λ x. push_string x (quoted_from none 0 s)) (append_assoc cur (c ∷ cs) v)))

-- What stands between the names.
abbrev pub IsGap : Bytes → Type 0
IsGap s = all (λ c. not (c == b'"')) s ≡ true

quoted_from-gap : (g s : Bytes) → IsGap g → quoted_from none 0 (g ++ s) ≡ quoted_from none 0 s
unfolding quoted_from
quoted_from-gap [] s h = refl
quoted_from-gap (c ∷ g) s h = ground (arith, quoted_from-gap g s)

-- How a list of names is written.
pub data NameList : List Bytes → Bytes → Type 0 where
  no_more : (g : Bytes) → IsGap g → NameList [] g
  named :
      (g : Bytes) {v t s : Bytes} {vs : List Bytes}
      → IsGap g
      → Quotes v t
      → NameList vs s
      → NameList (v ∷ vs) (g ++ b'"' ∷ (t ++ b'"' ∷ s))

pub quoted_strings-NameList :
    {vs : List Bytes} {s : Bytes} → NameList vs s → quoted_strings s ≡ some vs
unfolding quoted_strings quoted_from
quoted_strings-NameList (no_more g h) =
    ap (quoted_from none 0) (sym (append-nil g)) ∙ quoted_from-gap g [] h
quoted_strings-NameList (named g {v = v} {t = t} {s = s} {vs = vs} h q l) =
    quoted_from-gap g (b'"' ∷ (t ++ b'"' ∷ s)) h
    ∙ (quoted_from-Quotes [] s q ∙ ap (push_string v) (quoted_strings-NameList l))
