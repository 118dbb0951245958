-- ===== src/Sql/Fields.antt =====
-- src/sql_parser.rs `field`: what PostgreSQL writes as a field of a node is read back.
use allgres.Base.{
  false, Option, none, some, [], ◌∷◌, ◌++◌, ◌≡◌, ◌≢◌, refl, ap, ◌∙◌, arith, drop-length,
}
use mathlib.Core.Option
use allgres.Bytes.{Bytes, lit}
use allgres.Bytes.Compare.{starts_with, starts_with-append}
use allgres.Bytes.Search.{after}
use allgres.Sql.{read_token, field}
use allgres.Sql.Token.{Escapes, AtEnd, read_token-Escapes}
use allgres.Sql.Occurrences.{after_here, after_there}

-- The text does not start like the two that stand for no value and for an empty one.
abbrev pub OpensPlainly : Bytes → Type 0
OpensPlainly [] = ⊥
OpensPlainly (c ∷ t) = (c ≢ b'<') × (c ≢ b'"')

-- How a value is written: `<>` for none, `""` for an empty text, and else with the characters that
-- need it escaped, up to a delimiter.
pub data Token : Option Bytes → Bytes → Bytes → Type 0 where
  absent : {rest : Bytes} → Token none (lit "<>") rest
  empty : {rest : Bytes} → Token (some []) (lit "\"\"") rest
  written : {v t rest : Bytes} → Escapes v t → OpensPlainly t → AtEnd rest → Token (some v) t rest

opens_plainly :
    (t rest : Bytes)
    → OpensPlainly t
    → (starts_with (lit "<>") (t ++ rest) ≡ false) × (starts_with (lit "\"\"") (t ++ rest) ≡ false)
unfolding starts_with
opens_plainly [] rest h = absurd h
opens_plainly (c ∷ t) rest h = (ground (arith, h.0), ground (arith, h.1))

read_token-Token :
    {v : Option Bytes} {t rest : Bytes}
    → Token v t rest
    → Option.map (λ x. x.0) (read_token (t ++ rest)) ≡ some v
unfolding read_token starts_with
read_token-Token absent = refl
read_token-Token empty = refl
read_token-Token (written {t = t} {rest = rest} m o d) =
    let (p, q) = opens_plainly t rest o in
    ap (Option.map (λ x. x.0)) (read_token-Escapes rest m d p q)

-- No occurrence of the needle starts within the text in front of the rest.
abbrev pub IsFirst : Bytes → Bytes → Bytes → Type 0
IsFirst n [] rest = Unit
IsFirst n (c ∷ s) rest = (starts_with n (c ∷ (s ++ rest)) ≡ false) × IsFirst n s rest

after-IsFirst :
    (n front back : Bytes)
    → IsFirst n front (n ++ back)
    → after n (front ++ (n ++ back)) ≡ some back
after-IsFirst n [] back h =
    after_here n (n ++ back) (starts_with-append n back) ∙ ap some (drop-length n back)
after-IsFirst n (c ∷ front) back h =
    after_there n c (front ++ (n ++ back)) h.0 ∙ after-IsFirst n front back h.1

-- The name of a field as PostgreSQL writes it.
abbrev pub label : Bytes → Bytes
label name = b':' ∷ (name ++ b' ' ∷ [])

-- The text of a node holds the field with the value, and its name nowhere before.
pub record Holds (body name : Bytes) (v : Option Bytes) : Type 0 where
  pub front : Bytes
  pub text : Bytes
  pub back : Bytes
  pub made : body ≡ front ++ (label name ++ (text ++ back))
  pub first : IsFirst (label name) front (label name ++ (text ++ back))
  pub token : Token v text back

pub field-Holds :
    (body name : Bytes) (v : Option Bytes) → Holds body name v → field body name ≡ some v
unfolding field
field-Holds body name v h =
    ap (λ b. field b name) h.made
    ∙ rw (after-IsFirst (label name) h.front (h.text ++ h.back) h.first, field)
        (read_token-Token h.token)
