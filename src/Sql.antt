-- ===== src/Sql.antt =====
-- src/sql_parser.rs: reading PostgreSQL's dump of a parse tree. The dump itself, `raw_parser` and
-- `nodeToString`, is PostgreSQL's and an argument here. `none` is a panic of the Rust code.
pub mod Analyze
pub mod Dump
pub mod Fields
pub mod Nesting
pub mod Occurrences
pub mod Strings
pub mod Tests
pub mod Token
use mathlib.Core.Option
use allgres.Base.{
  ℕ, zero, suc, ◌+◌, ◌-◌, ◌*◌, ◌/◌, ◌%◌, Bool, true, false, not, ◌&&◌, ◌||◌, Option, none, some,
  List, [], ◌∷◌, ◌++◌, ltb, leb, ◌==◌, within, if◌then◌else◌, length, any, is_empty, map,
}
use allgres.Bytes.{Bytes, lit, is_ascii_whitespace, is_ascii_alphanumeric}
use allgres.Bytes.Compare.{same, starts_with}
use allgres.Bytes.Search.{after, contains}
use allgres.Utf8.{char_len}

-- `String::push(b as char)`: the byte as a code point, in UTF-8.
abbrev pub push_latin : ℕ → Bytes → Bytes
push_latin b s = if ltb b 0x80 then b ∷ s else (0xc0 + b / 64) ∷ (0x80 + b % 64) ∷ s

-- A token read so far, and the bytes it took.
abbrev pub Token : Type 0
Token = Bytes × ℕ

abbrev pub is_delimiter : ℕ → Bool
is_delimiter b = is_ascii_whitespace b || (b == b'}' || (b == b')' || (b == b'{' || b == b'(')))

abbrev take_one : ℕ → Option Token → Option Token
take_one b rest = Option.map (λ t. (b ∷ t.0, suc t.1)) rest

abbrev take_escaped : ℕ → Option Token → Option Token
take_escaped b rest = Option.map (λ t. (push_latin b t.0, suc (suc t.1))) rest

-- The loop of `read_token`; the number is what is left to copy of a character of several bytes.
-- Slicing inside such a character panics.
pub token_from : ℕ → Bytes → Option Token
token_from k [] = some ([], 0)
token_from (suc k) (b ∷ s) = take_one b (token_from k s)
token_from zero (b ∷ []) =
    if b == b'\\'
    then some ([], 1)
    else if is_delimiter b
    then some ([], 0)
    else if ltb b 0x80
    then some (b ∷ [], 1)
    else none
token_from zero (b ∷ e ∷ s) =
    let escaped = take_escaped e (token_from zero s) in
    let plain = take_one b (token_from zero (e ∷ s)) in
    let wide = elim (char_len (b ∷ e ∷ s)) as (λ _. Option Token) [
      | zero ↦ none
      | suc k ↦ take_one b (token_from k (e ∷ s))
    ] in
    if b == b'\\'
    then escaped
    else if is_delimiter b
    then some ([], 0)
    else if ltb b 0x80
    then plain
    else wide

-- The value, none inside for `<>`, and the bytes it took.
pub read_token : Bytes → Option (Option Bytes × ℕ)
read_token s =
    if starts_with (lit "<>") s
    then some (none, 2)
    else if starts_with (lit "\"\"") s
    then some (some [], 2)
    else Option.map (λ t. (some t.0, t.1)) (token_from zero s)

-- `node_body` and `paren_body`: the text up to the bracket that closes what was open before it.
pub nested_body : ℕ → ℕ → ℕ → Bytes → Bytes
nested_body opening close depth [] = []
nested_body opening close depth (x ∷ []) =
    if not (x == b'\\') && (not (x == opening) && (x == close && depth == 0)) then [] else x ∷ []
nested_body opening close depth (x ∷ y ∷ s) =
    let skipped = x ∷ y ∷ nested_body opening close depth s in
    let deeper = x ∷ nested_body opening close (suc depth) (y ∷ s) in
    let higher = x ∷ nested_body opening close (depth - 1) (y ∷ s) in
    let further = x ∷ nested_body opening close depth (y ∷ s) in
    if x == b'\\'
    then skipped
    else if x == opening
    then deeper
    else if x == close
    then if depth == 0 then [] else higher
    else further

pub node_body : Bytes → Bytes
node_body = nested_body b'{' b'}' 0

pub paren_body : Bytes → Bytes
paren_body = nested_body b'(' b')' 0

abbrev pub push_string : Bytes → Option (List Bytes) → Option (List Bytes)
push_string s rest = Option.map (λ ss. s ∷ ss) rest

-- The loops of `quoted_strings`: outside a string, or in one with what was read of it, and then
-- with what is left to copy of a character.
pub quoted_from : Option Bytes → ℕ → Bytes → Option (List Bytes)
quoted_from none k [] = some []
quoted_from (some cur) k [] = some (cur ∷ [])
quoted_from none k (c ∷ s) = quoted_from (if c == b'"' then some [] else none) 0 s
quoted_from (some cur) (suc k) (c ∷ s) = quoted_from (some (cur ++ c ∷ [])) k s
quoted_from (some cur) zero (c ∷ []) =
    if c == b'"' then some (cur ∷ []) else if ltb c 0x80 then some ((cur ++ c ∷ []) ∷ []) else none
quoted_from (some cur) zero (c ∷ e ∷ s) =
    let closed = push_string cur (quoted_from none 0 (e ∷ s)) in
    let escaped = quoted_from (some (cur ++ push_latin e [])) 0 s in
    let plain = quoted_from (some (cur ++ c ∷ [])) 0 (e ∷ s) in
    let wide = elim (char_len (c ∷ e ∷ s)) as (λ _. Option (List Bytes)) [
      | zero ↦ none
      | suc k ↦ quoted_from (some (cur ++ c ∷ [])) k (e ∷ s)
    ] in
    if c == b'"' then closed else if c == b'\\' then escaped else if ltb c 0x80 then plain else wide

pub quoted_strings : Bytes → Option (List Bytes)
quoted_strings = quoted_from none 0

-- The value of `:name` in the body of a node.
pub field : Bytes → Bytes → Option (Option Bytes)
field body name = elim (after (b':' ∷ (name ++ b' ' ∷ [])) body) [
  | none ↦ some none
  | some rest ↦ Option.map (λ t. t.0) (read_token rest)
]

pub read_ident : Bytes → Bytes
read_ident [] = []
read_ident (c ∷ s) = if is_ascii_alphanumeric c || c == b'_' then c ∷ read_ident s else []

-- `while let Some(p) = dump[idx..].find(n)`: what is behind each occurrence, in order.
pub occurrences_from : ℕ → Bytes → Bytes → List Bytes
occurrences_from zero n s = []
occurrences_from (suc fuel) n s = elim (after n s) [
  | none ↦ []
  | some rest ↦ rest ∷ occurrences_from fuel n rest
]

-- Each round leaves a shorter text, so that this fuel is enough.
pub occurrences : Bytes → Bytes → List Bytes
occurrences n dump = occurrences_from (suc (length dump)) n dump
