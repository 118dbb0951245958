-- ===== src/Sql/Analyze/Coverage.antt =====
-- The analysis misses no table and no function of a statement.
use allgres.Base.{
  Option, none, some, List, [], ◌∷◌, ◌++◌, ◌≡◌, ◌⊎◌, inl, inr, refl, sym, ap, subst, ◌∙◌, arith,
  Option-cases,
}
use mathlib.Core.Option.{some_inj, none-ne-some}
use allgres.Bytes.{Bytes, lit}
use allgres.Sql.{node_body, paren_body, occurrences}
use allgres.Sql.Nesting.{Balanced, AreBrackets, nested_body_lem}
use allgres.Sql.Fields.{Holds, field-Holds}
use allgres.Sql.Strings.{NameList, quoted_strings-NameList}
use allgres.Sql.Occurrences.{Among, occurrences-append}
use allgres.Sql.Analyze.{
  Name, last_two, Analysis, analyzed, relation_at, function_at, cte_at, collect, analyze_dump,
  rangevar, funcname, ctename,
}

-- What stands at `b` was read without a panic, and is in the list if it is anything.
abbrev Listed : {A : Type 0} → (Bytes → Option (Option A)) → Bytes → List A → Type 0
Listed {A = A} reads b found =
    (reads b ≡ some none) ⊎ ((a : A) × (reads b ≡ some (some a)) × Among a found)

collect-cons :
    {A : Type 0} (reads : Bytes → Option (Option A)) (b : Bytes) (bs : List Bytes) (found : List A)
    → collect reads (b ∷ bs) ≡ some found
    → (others : List A) × (collect reads bs ≡ some others)
      × (((reads b ≡ some none) × (found ≡ others))
          ⊎ ((a : A) × (reads b ≡ some (some a)) × (found ≡ a ∷ others)))
unfolding collect
collect-cons reads b bs found h = elim (Option-cases (reads b)) [
  | inl e ↦ cc (rw (e, collect) at h)
  | inr (none, e) ↦ elim (Option-cases (collect reads bs)) [
    | inl f ↦ cc (rw (e, f, collect) at h)
    | inr (others, f) ↦ (others, f, inl (e, sym (some_inj.0 (rw (e, f, collect) at h))))
  ]
  | inr (some a, e) ↦ elim (Option-cases (collect reads bs)) [
    | inl f ↦ cc (rw (e, f, collect) at h)
    | inr (others, f) ↦ (others, f, inr (a, e, sym (some_inj.0 (rw (e, f, collect) at h))))
  ]
]

collect-Listed :
    {A : Type 0} (reads : Bytes → Option (Option A)) (b : Bytes) (bs : List Bytes) (found : List A)
    → Among b bs
    → collect reads bs ≡ some found
    → Listed reads b found
collect-Listed reads b [] found m h = absurd m
collect-Listed reads b (x ∷ bs) found m h =
    let (others, f, r) = collect-cons reads x bs found h in
    elim m [
      | inl here ↦ elim r [
        | inl (e, g) ↦ inl (ap reads here ∙ e)
        | inr (a, e, g) ↦ inr (a, ap reads here ∙ e, subst (Among a) (sym g) (inl refl))
      ]
      | inr there ↦
          let rest = collect-Listed reads b bs others there f in
          elim r [
            | inl (e, g) ↦ subst (Listed reads b) (sym g) rest
            | inr (a, e, g) ↦ elim rest [
              | inl n ↦ inl n
              | inr (a', e', k) ↦ inr (a', e', subst (Among a') (sym g) (inr k))
            ]
          ]
    ]

-- The relations, the functions and the CTEs of an analysis are what the loops collect.
analyze_dump-collect :
    (dump : Bytes) (r : Analysis)
    → analyze_dump dump ≡ some (analyzed r)
    → (collect relation_at (occurrences rangevar dump) ≡ some r.relations)
      × (collect function_at (occurrences funcname dump) ≡ some r.functions)
      × (collect cte_at (occurrences ctename dump) ≡ some r.ctes)
unfolding analyze_dump
analyze_dump-collect dump r h = ground arith

-- A list of which an element is what is read at `b` holds it, if the reading goes well.
listed :
    {A : Type 0} (reads : Bytes → Option (Option A)) (b : Bytes) (a : A) (found : List A)
    → reads b ≡ some (some a)
    → Listed reads b found
    → Among a found
listed reads b a found e (inl n) = absurd (none-ne-some a (some_inj.0 (sym n ∙ e)))
listed reads b a found e (inr (a', e', m)) =
    subst (λ x. Among x found) (some_inj.0 (some_inj.0 (sym e' ∙ e))) m

-- The two brackets of a node, and of a list.
braces : AreBrackets b'{' b'}'
braces = record {
  apart = λ h. ground arith;
  opening_plain = λ h. ground arith;
  close_plain = λ h. ground arith;
}

parens : AreBrackets b'(' b')'
parens = record {
  apart = λ h. ground arith;
  opening_plain = λ h. ground arith;
  close_plain = λ h. ground arith;
}

-- The node of a relation, as PostgreSQL writes it: its brackets match, and it holds the relation's
-- name and its schema, if it has one.
pub record IsRangevar (r : Name) (body : Bytes) : Type 0 where
  pub closed : Balanced b'{' b'}' body
  pub relname : Holds body (lit "relname") (some r.name)
  pub schemaname : Holds body (lit "schemaname") r.schema

relation_at-IsRangevar :
    (r : Name) (body rest : Bytes)
    → IsRangevar r body
    → relation_at (body ++ b'}' ∷ rest) ≡ some (some r)
unfolding relation_at node_body
relation_at-IsRangevar r body rest h =
    rw
      (
        nested_body_lem b'{' b'}' body rest braces h.closed,
        field-Holds body (lit "relname") (some r.name) h.relname,
        nested_body_lem b'{' b'}' body rest braces h.closed,
        field-Holds body (lit "schemaname") r.schema h.schemaname,
      )
      refl

-- What a name of so many parts stands for: the last two are the schema and the name.
pub data IsCalled : Name → List Bytes → Type 0 where
  unqualified : (n : Bytes) → IsCalled (record { schema = none; name = n }) (n ∷ [])
  qualified :
      (others : List Bytes) (s n : Bytes)
      → IsCalled (record { schema = some s; name = n }) (others ++ s ∷ n ∷ [])

last_two-cons :
    (x : Bytes) (others : List Bytes) (s n : Bytes)
    → last_two (x ∷ (others ++ s ∷ n ∷ [])) ≡ last_two (others ++ s ∷ n ∷ [])
unfolding last_two
last_two-cons x [] s n = refl
last_two-cons x (y ∷ []) s n = refl
last_two-cons x (y ∷ z ∷ others) s n = refl

last_two-qualified :
    (others : List Bytes) (s n : Bytes)
    → last_two (others ++ s ∷ n ∷ []) ≡ some (record { schema = some s; name = n })
unfolding last_two
last_two-qualified [] s n = refl
last_two-qualified (x ∷ others) s n = last_two-cons x others s n ∙ last_two-qualified others s n

last_two-IsCalled : {r : Name} {parts : List Bytes} → IsCalled r parts → last_two parts ≡ some r
unfolding last_two
last_two-IsCalled (unqualified n) = refl
last_two-IsCalled (qualified others s n) = last_two-qualified others s n

-- The list of a function's names, as PostgreSQL writes it.
pub record IsFuncname (r : Name) (body : Bytes) : Type 0 where
  pub closed : Balanced b'(' b')' body
  pub parts : List Bytes
  pub names : NameList parts body
  pub called : IsCalled r parts

function_at-IsFuncname :
    (r : Name) (body rest : Bytes)
    → IsFuncname r body
    → function_at (body ++ b')' ∷ rest) ≡ some (some r)
unfolding function_at paren_body
function_at-IsFuncname r body rest h =
    rw
      (
        nested_body_lem b'(' b')' body rest parens h.closed,
        quoted_strings-NameList h.names,
        last_two-IsCalled h.called,
      )
      refl

-- Wherever the dump of a statement holds the node of a relation, at any depth, an analysis that
-- succeeds lists that relation, with its name and its schema, however the characters of the two are
-- escaped: if the node's braces match, but for those that are escaped, and the labels of the two
-- fields do not come in the node's text before the fields themselves.
pub analyze_dump-relations :
    (before body behind : Bytes) (relation : Name) (r : Analysis)
    → IsRangevar relation body
    → analyze_dump (before ++ (rangevar ++ (body ++ b'}' ∷ behind))) ≡ some (analyzed r)
    → Among relation r.relations
analyze_dump-relations before body behind relation r shape h =
    let at : Bytes = body ++ b'}' ∷ behind in
    listed relation_at at relation r.relations (relation_at-IsRangevar relation body behind shape) (
      collect-Listed relation_at at (occurrences rangevar (before ++ (rangevar ++ at))) r.relations
        (occurrences-append b'{' (lit "RANGEVAR ") before at refl)
        (analyze_dump-collect (before ++ (rangevar ++ at)) r h).0)

-- Wherever the dump of a statement holds the list of a function's names, at any depth, an analysis
-- that succeeds lists that function, with the last of them as its name and the one before, if there
-- is one, as its schema, however their characters are escaped: if the list's parentheses match, but
-- for those that are escaped, and each quote within a name is escaped.
pub analyze_dump-functions :
    (before body behind : Bytes) (function : Name) (r : Analysis)
    → IsFuncname function body
    → analyze_dump (before ++ (funcname ++ (body ++ b')' ∷ behind))) ≡ some (analyzed r)
    → Among function r.functions
analyze_dump-functions before body behind function r shape h =
    let at : Bytes = body ++ b')' ∷ behind in
    listed function_at at function r.functions (function_at-IsFuncname function body behind shape) (
      collect-Listed function_at at (occurrences funcname (before ++ (funcname ++ at))) r.functions
        (occurrences-append b':' (lit "funcname (") before at refl)
        (analyze_dump-collect (before ++ (funcname ++ at)) r h).1)
