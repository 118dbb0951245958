-- ===== src/Sql/Analyze/Tests.antt =====
-- The analysis of the dump of `select f() from s.t`, shortened.
use allgres.Base.{
  ℕ, ◌<◌, ◌≢◌, ◌==◌, ◌&&◌, Bool, not, all, arith, true, false, some, none, [], ◌∷◌, ◌++◌, ◌≡◌, refl,
}
use allgres.Bytes.{Bytes, lit}
use allgres.Bytes.Compare.{starts_with, same}
use allgres.Bytes.Search.{find, after, contains}
use allgres.Utf8.{char_len}
use allgres.Sql.{
  token_from, read_token, nested_body, node_body, paren_body, quoted_from, quoted_strings, field,
  read_ident, occurrences_from, occurrences,
}
use allgres.Sql.Nesting
use allgres.Sql.Nesting.{Balanced}
use allgres.Sql.Token
use allgres.Sql.Strings
use allgres.Sql.Strings.{Quotes, no_more, named}
use allgres.Sql.Fields.{IsFirst, absent, written}
use allgres.Sql.Occurrences.{Among}
use allgres.Sql.Analyze.{
  Name, Analysis, analyzed, kinds_of, relation_at, cte_at, last_two, function_at, collect,
  is_one_select, dml_tags, analyze_dump, rangevar, funcname,
}
use allgres.Sql.Analyze.Coverage.{
  IsRangevar, IsFuncname, qualified, analyze_dump-relations, analyze_dump-functions,
}

abbrev head_text : Bytes
head_text = lit "({RAWSTMT :stmt {SELECTSTMT :targetList ({FUNCCALL "

abbrev names_text : Bytes
names_text = lit "\"s\" \"f\""

abbrev middle_text : Bytes
middle_text = lit " :args <>}) :fromClause ("

abbrev relation_text : Bytes
relation_text = lit ":schemaname <> :relname a\\ b :inh true"

abbrev tail_text : Bytes
tail_text = lit ")}})"

abbrev relation : Name
relation = record { schema = none; name = lit "a b" }

abbrev function : Name
function = record { schema = some (lit "s"); name = lit "f" }

abbrev analysis : Analysis
analysis = record {
  statements = 1;
  is_select = true;
  writes = false;
  relations = relation ∷ [];
  functions = function ∷ [];
  ctes = [];
}

sample_analyzed :
    analyze_dump (
      head_text
      ++ (funcname
          ++ (names_text
              ++ b')' ∷ (middle_text ++ (rangevar ++ (relation_text ++ b'}' ∷ tail_text))))))
    ≡ some (analyzed analysis)
unfolding token_from read_token nested_body node_body paren_body quoted_from quoted_strings field
    read_ident occurrences_from occurrences kinds_of relation_at cte_at last_two function_at collect
    is_one_select dml_tags analyze_dump find after contains starts_with same char_len
sample_analyzed = refl

-- Text without a backslash and without brackets is balanced.
is_bare : ℕ → ℕ → Bytes → Bool
is_bare opening close s = all (λ c. not (c == b'\\') && (not (c == opening) && not (c == close))) s

bare-Balanced :
    (opening close : ℕ) (s rest : Bytes)
    → is_bare opening close s ≡ true
    → Balanced opening close rest
    → Balanced opening close (s ++ rest)
unfolding is_bare
bare-Balanced opening close [] rest h m = m
bare-Balanced opening close (c ∷ s) rest h m =
    Nesting.plain (λ e. ground (arith, e, h)) (λ e. ground (arith, e, h))
      (λ e. ground (arith, e, h)) (bare-Balanced opening close s rest (ground (arith, h)) m)

relation_text-IsRangevar : IsRangevar relation relation_text
unfolding is_bare starts_with
relation_text-IsRangevar = record {
  closed =
      bare-Balanced b'{' b'}' (lit ":schemaname <> :relname a") (lit "\\ b :inh true") refl
        (Nesting.escaped (bare-Balanced b'{' b'}' (lit "b :inh true") [] refl Nesting.nothing));
  relname = record {
    front = lit ":schemaname <> ";
    text = lit "a\\ b";
    back = lit " :inh true";
    made = refl;
    first = all_first;
    token =
        written
          (Token.plain (omega arith) (λ h. ground arith) refl
            (Token.escaped (omega arith)
              (Token.plain (omega arith) (λ h. ground arith) refl Token.nothing)))
          ((λ h. ground arith), (λ h. ground arith)) ((λ h. ground arith), refl);
  };
  schemaname = record {
    front = [];
    text = lit "<>";
    back = lit " :relname a\\ b :inh true";
    made = refl;
    first = tt;
    token = absent;
  };
}
  where
    all_first : IsFirst (lit ":relname ") (lit ":schemaname <> ") (lit ":relname a\\ b :inh true")
    all_first = (
      refl,
      (
        refl,
        (
          refl,
          (
            refl,
            (
              refl,
              (refl, (refl, (refl, (refl, (refl, (refl, (refl, (refl, (refl, (refl, tt)))))))))),
            ),
          ),
        ),
      ),
    )

names_text-IsFuncname : IsFuncname function names_text
unfolding is_bare
names_text-IsFuncname = record {
  closed = bare-Balanced b'(' b')' names_text [] refl Nesting.nothing;
  parts = lit "s" ∷ lit "f" ∷ [];
  names = named [] refl (one b's' (omega arith) (λ h. ground arith) (λ h. ground arith)) (
      named (lit " ") refl (one b'f' (omega arith) (λ h. ground arith) (λ h. ground arith))
        (no_more [] refl));
  called = qualified [] (lit "s") (lit "f");
}
  where
    one : (c : ℕ) → c < 0x80 → c ≢ b'\\' → c ≢ b'"' → Quotes (c ∷ []) (c ∷ [])
    one c l n q = Strings.plain l n q Strings.nothing

analyze_dump-relations_example : Among relation analysis.relations
analyze_dump-relations_example =
    analyze_dump-relations (head_text ++ (funcname ++ (names_text ++ b')' ∷ middle_text)))
      relation_text tail_text relation analysis relation_text-IsRangevar sample_analyzed

analyze_dump-functions_example : Among function analysis.functions
analyze_dump-functions_example =
    analyze_dump-functions head_text names_text
      (middle_text ++ (rangevar ++ (relation_text ++ b'}' ∷ tail_text))) function analysis
      names_text-IsFuncname sample_analyzed

-- A schema whose name holds the label of the relation's name hides the relation's name.
hidden_relation :
    relation_at (lit ":schemaname x:relname :relname secret :inh true}")
    ≡ some (some (record { schema = some (lit "x:relname"); name = lit ":relname" }))
unfolding relation_at node_body nested_body field read_token token_from find after starts_with
hidden_relation = refl

-- A quote within a name, which PostgreSQL escapes at its front only, is taken for its end.
hidden_function :
    function_at (lit "\"s\"x\"now\")")
    ≡ some (some (record { schema = some (lit "s"); name = lit "now" }))
unfolding function_at paren_body nested_body quoted_strings quoted_from last_two
hidden_function = refl
