-- ===== src/Sql/Dump.antt =====
-- src/sql_parser.rs `raw_parse_dump`, and src/lib.rs `analyze_sql`: from the text of a statement to
-- its analysis. PostgreSQL's parser and its printer of trees are arguments.
use allgres.Base.{true, false, Option, none, some, [], ◌≡◌, refl, ap, ◌==◌, any, if◌then◌else◌}
use allgres.Bytes.{Bytes}
use allgres.Utf8.{IsUtf8, from_utf8_lossy}
use allgres.Utf8.Lossy.{from_utf8_lossy_of_IsUtf8}
use allgres.Worker.Session.{Outcome, returns, unwinds}
use allgres.Sql.Analyze.{Verdict, unparseable, analyze_dump, analyze_dump_nil}

-- What `raw_parser` comes to: a list of trees, NULL, or an ERROR for text that is no statement.
pub data Parsed {ℓ} (Tree : Type ℓ) : Type ℓ where
  parsed : Tree → Parsed Tree
  null : Parsed Tree
  raised : Bytes → Parsed Tree

module _ {ℓ} {Tree : Type ℓ} (raw_parser : Bytes → Parsed Tree)
    (node_to_string : Tree → Option Bytes) where
  abbrev text_of : Option Bytes → Bytes
  text_of none = []
  text_of (some s) = from_utf8_lossy s

  abbrev dump_of : Parsed Tree → Outcome Bytes
  dump_of (parsed tree) = returns (text_of (node_to_string tree))
  dump_of null = returns []
  dump_of (raised e) = unwinds e

  -- `CString::new` fails on a NUL, and the text is then taken for one that cannot be parsed.
  pub raw_parse_dump : Bytes → Outcome Bytes
  raw_parse_dump sql = if any (λ c. c == 0) sql then returns [] else dump_of (raw_parser sql)

  abbrev analyzed_from : Outcome Bytes → Outcome (Option Verdict)
  analyzed_from (returns dump) = returns (analyze_dump dump)
  analyzed_from (unwinds e) = unwinds e

  -- None where the reading of the dump panics.
  pub analyze_sql : Bytes → Outcome (Option Verdict)
  analyze_sql sql = analyzed_from (raw_parse_dump sql)

  -- What is analyzed is what the parser's tree is printed as.
  pub analyze_sql-analyze_dump :
      (sql dump : Bytes) (tree : Tree)
      → any (λ c. c == 0) sql ≡ false
      → raw_parser sql ≡ parsed tree
      → node_to_string tree ≡ some dump
      → IsUtf8 dump
      → analyze_sql sql ≡ returns (analyze_dump dump)
  unfolding analyze_sql raw_parse_dump
  analyze_sql-analyze_dump sql dump tree no_nul p printed u =
      rw (no_nul, p, printed, from_utf8_lossy_of_IsUtf8 dump u) refl

  -- Text that holds a NUL is never analyzed as a statement.
  pub nul-unparseable :
      (sql : Bytes) → any (λ c. c == 0) sql ≡ true → analyze_sql sql ≡ returns (some unparseable)
  unfolding analyze_sql raw_parse_dump
  nul-unparseable sql h = rw h (ap returns analyze_dump_nil)
