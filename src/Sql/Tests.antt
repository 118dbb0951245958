-- ===== src/Sql/Tests.antt =====
-- Tokens and node bodies at concrete text.
use allgres.Base.{some, none, ◌∷◌, ◌++◌, ◌≡◌, refl, arith}
use allgres.Bytes.{lit}
use allgres.Bytes.Compare.{starts_with}
use allgres.Sql.{nested_body, read_token}
use allgres.Sql.Nesting.{Balanced, nothing, plain, escaped, nested, nested_body_lem}
use allgres.Sql.Token.{Escapes, AtEnd, read_token-Escapes}
use allgres.Sql.Token

-- A node within a node, and an escaped brace.
inner : Balanced b'{' b'}' (lit "{\\}}a")
inner =
    nested (escaped nothing)
      (plain (λ h. ground arith) (λ h. ground arith) (λ h. ground arith) nothing)

nested_node : nested_body b'{' b'}' 0 (lit "{\\}}a" ++ b'}' ∷ lit " {b}") ≡ lit "{\\}}a"
nested_node =
    nested_body_lem b'{' b'}' (lit "{\\}}a") (lit " {b}")
      (record {
        apart = λ h. ground arith;
        opening_plain = λ h. ground arith;
        close_plain = λ h. ground arith;
      })
      inner

quoted_name : Escapes (lit "a b") (lit "a\\ b")
quoted_name =
    Token.plain (omega arith) (λ h. ground arith) refl
      (Token.escaped (omega arith)
        (Token.plain (omega arith) (λ h. ground arith) refl Token.nothing))

read_token-Escapes_example : read_token (lit "a\\ b" ++ lit " :inh") ≡ some (some (lit "a b"), 4)
unfolding starts_with
read_token-Escapes_example =
    read_token-Escapes (lit " :inh") quoted_name ((λ h. ground arith), refl) refl refl

absent : read_token (lit "<> :relname") ≡ some (none, 2)
unfolding read_token starts_with
absent = refl
