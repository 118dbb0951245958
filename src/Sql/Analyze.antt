-- ===== src/Sql/Analyze.antt =====
-- src/sql_parser.rs `analyze_dump`: what a statement is and what it names.
pub mod Coverage
pub mod Tests
use allgres.Base.{
  ℕ, Bool, false, ◌||◌, Option, none, some, List, [], ◌∷◌, ◌≡◌, refl, if◌then◌else◌, length, any,
  is_empty,
}
use allgres.Bytes.{Bytes, lit}
use allgres.Bytes.Compare.{same}
use allgres.Bytes.Search.{after, contains}
use allgres.Sql.{read_token, node_body, paren_body, quoted_strings, field, read_ident, occurrences}

-- A name as the statement writes it, with its schema if it is qualified.
pub record Name : Type 0 where
  pub schema : Option Bytes
  pub name : Bytes

pub record Analysis : Type 0 where
  pub statements : ℕ
  pub is_select : Bool
  pub writes : Bool
  pub relations : List Name
  pub functions : List Name
  pub ctes : List Bytes

pub data Verdict : Type 0 where
  unparseable : Verdict
  analyzed : Analysis → Verdict

infixl 5 ◌>>=◌
abbrev pub ◌>>=◌ {ℓ κ} : {A : Type ℓ} {B : Type κ} → Option A → (A → Option B) → Option B
none >>= k = none
some a >>= k = k a

kinds_of : List Bytes → List Bytes
kinds_of [] = []
kinds_of (rest ∷ rests) = elim (after (lit ":stmt {") (node_body rest)) [
  | none ↦ kinds_of rests
  | some stmt ↦ read_ident stmt ∷ kinds_of rests
]

pub relation_at : Bytes → Option (Option Name)
relation_at rest = do
  name ← field (node_body rest) (lit "relname")
  elim name [
    | none ↦ some none
    | some n ↦ do
      schema ← field (node_body rest) (lit "schemaname")
      some (some (record { schema = schema; name = n }))
  ]

pub cte_at : Bytes → Option (Option Bytes)
cte_at rest = do t ← read_token rest; some t.0

-- The last two of the strings, the last first.
pub last_two : List Bytes → Option Name
last_two [] = none
last_two (n ∷ []) = some (record { schema = none; name = n })
last_two (s ∷ n ∷ []) = some (record { schema = some s; name = n })
last_two (x ∷ s ∷ n ∷ parts) = last_two (s ∷ n ∷ parts)

pub function_at : Bytes → Option (Option Name)
function_at rest = do parts ← quoted_strings (paren_body rest); some (last_two parts)

-- The body of a loop at each occurrence: a panic ends it, and it may leave an occurrence out.
unfoldable pub collect {ℓ} :
    {A : Type ℓ} → (Bytes → Option (Option A)) → List Bytes → Option (List A)
collect reads [] = some []
collect reads (rest ∷ rests) = do
  found ← reads rest
  others ← collect reads rests
  elim found [ none ↦ some others | some a ↦ some (a ∷ others) ]

dml_tags : List Bytes
dml_tags = lit "{INSERTSTMT" ∷ lit "{UPDATESTMT" ∷ lit "{DELETESTMT" ∷ lit "{MERGESTMT" ∷ []

is_one_select : List Bytes → Bool
is_one_select (k ∷ []) = same k (lit "SELECTSTMT")
is_one_select _ = false

abbrev pub rangevar : Bytes
rangevar = lit "{RANGEVAR "

abbrev pub funcname : Bytes
funcname = lit ":funcname ("

abbrev pub ctename : Bytes
ctename = lit ":ctename "

pub analyze_dump : Bytes → Option Verdict
analyze_dump dump = if is_empty dump then some unparseable else do
  relations ← collect relation_at (occurrences rangevar dump)
  ctes ← collect cte_at (occurrences ctename dump)
  functions ← collect function_at (occurrences funcname dump)
  let kinds = kinds_of (occurrences (lit "{RAWSTMT") dump)
  some (
      analyzed (record {
        statements = length kinds;
        is_select = is_one_select kinds;
        writes = contains (lit ":intoClause {") dump || any (λ tag. contains tag dump) dml_tags;
        relations = relations;
        functions = functions;
        ctes = ctes;
      }))

-- The empty dump is that of no statement.
pub analyze_dump_nil : analyze_dump [] ≡ some unparseable
unfolding analyze_dump
analyze_dump_nil = refl
