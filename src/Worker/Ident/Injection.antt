-- ===== src/Worker/Ident/Injection.antt =====
-- A checked name holds nothing that could end it in a statement.
use allgres.Base.{
  all-append, Bool, true, ◌||◌, [], ◌∷◌, ◌++◌, ◌≡◌, refl, sym, subst, arith, ◌==◌, all, length,
  Option-cases, inl, inr,
}
use allgres.Bytes.{Bytes, is_ascii_alphanumeric, is_ascii_hexdigit}
use allgres.Bytes.Compare.{strip_prefix, strip_prefix-eq-some}
use allgres.Worker.Ident.{valid_sql_ident}

-- Only letters, digits and underscores, which no statement takes for anything but a name.
abbrev is_word : Bytes → Bool
is_word = all (λ c. is_ascii_alphanumeric c || c == b'_')

is_word-hex : (s : Bytes) → all is_ascii_hexdigit s ≡ true → is_word s ≡ true
is_word-hex [] h = refl
is_word-hex (c ∷ s) h = ground (arith, is_word-hex s)

-- Behind a prefix of letters, digits and underscores, a valid name is 32 bytes longer than the
-- prefix and has letters, digits and underscores only.
valid_sql_ident-is_word :
    (s prefix : Bytes)
    → is_word prefix ≡ true
    → valid_sql_ident s prefix ≡ true
    → (is_word s ≡ true) × ((hex : Bytes) × (s ≡ prefix ++ hex) × (length hex ≡ 32))
unfolding valid_sql_ident
valid_sql_ident-is_word s prefix p h = elim (Option-cases (strip_prefix prefix s)) [
  | inl e ↦ cc (rw (e, valid_sql_ident) at h)
  | inr (hex, e) ↦
      let checked = rw (e, valid_sql_ident) at h in
      let split = strip_prefix-eq-some prefix s hex e in
      (
        subst (λ t. is_word t ≡ true) (sym split)
            (ground (
              arith,
              checked,
              p,
              is_word-hex hex,
              all-append (λ c. is_ascii_alphanumeric c || c == b'_') prefix hex,
            )),
        (hex, split, ground (arith, checked)),
      )
]
