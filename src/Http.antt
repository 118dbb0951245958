-- ===== src/Http.antt =====
-- src/http_protocol.rs: the request that the web worker parses, and the loop that reads it off a
-- connection. The socket and the clock are an environment: what the k-th round of the loop sees.
pub mod Read
pub mod Pieces
pub mod Head
pub mod Printed
pub mod RoundTrip
pub mod Tests
pub mod Form
use allgres.Base.{
  ℕ, zero, suc, ◌+◌, ◌-◌, ◌*◌, ◌%◌, ◌^◌, Bool, true, false, ◌&&◌, List, [], ◌∷◌, ◌++◌, Option, none,
  some, leb, ltb, ◌==◌, within, if◌then◌else◌, length, take, drop, value_or,
}
use mathlib.Core.Option
use allgres.Bytes.{Bytes, lit}
use allgres.Bytes.Compare.{same_ignoring_case, to_lower}
use allgres.Bytes.Search.{find}
use allgres.Bytes.Split.{split_once, split_first, lines, trim, split_whitespace}
use allgres.Utf8.{from_utf8_lossy}

pub record HttpRequest : Type 0 where
  pub method : Bytes
  pub path : Bytes
  pub headers : List (Bytes × Bytes)
  pub body : Bytes

unfoldable pub route : HttpRequest → Bytes
route r = split_first b'?' r.path

pub query : HttpRequest → Bytes
query r = value_or [] (Option.map (λ p. p.1) (split_once b'?' r.path))

-- The value of the first header whose name is `name`, in any case of letters.
unfoldable pub find_header : Bytes → List (Bytes × Bytes) → Option Bytes
find_header name [] = none
find_header name ((k, v) ∷ hs) = if same_ignoring_case k name then some v else find_header name hs

unfoldable pub header : HttpRequest → Bytes → Option Bytes
header r name = find_header name r.headers

infixl 5 ◌>>=◌
abbrev pub ◌>>=◌ {ℓ κ} : {A : Type ℓ} {B : Type κ} → Option A → (A → Option B) → Option B
none >>= k = none
some a >>= k = k a

abbrev pub first {ℓ} : {A : Type ℓ} → List A → Option (A × List A)
first [] = none
first (x ∷ xs) = some (x, xs)

-- A header line: a name in lower case and a value, both trimmed.
pub parse_header : Bytes → Option (Bytes × Bytes)
parse_header l = Option.map (λ p. (to_lower (trim p.0), trim p.1)) (split_once b':' l)

push_some : Option (Bytes × Bytes) → List (Bytes × Bytes) → List (Bytes × Bytes)
push_some none hs = hs
push_some (some h) hs = h ∷ hs

pub parse_headers : List Bytes → List (Bytes × Bytes)
parse_headers [] = []
parse_headers (l ∷ ls) = push_some (parse_header l) (parse_headers ls)

abbrev pub blank_line : Bytes
blank_line = b'\r' ∷ b'\n' ∷ b'\r' ∷ b'\n' ∷ []

pub header_end : Bytes → Option ℕ
header_end bytes = Option.map (λ p. p + 4) (find blank_line bytes)

pub parse_http_request : Bytes → Option HttpRequest
parse_http_request bytes = do
  split ← header_end bytes
  (line, rest) ← first (lines (from_utf8_lossy (take split bytes)))
  (method, words) ← first (split_whitespace line)
  (path, _) ← first words
  some (record {
    method = method;
    path = path;
    headers = parse_headers rest;
    body = from_utf8_lossy (drop split bytes);
  })

abbrev pub usize_mod : ℕ
usize_mod = 2 ^ 64

-- The digits of a decimal number, none on another character or past `usize`.
unfoldable pub parse_digits : ℕ → Bytes → Option ℕ
parse_digits acc [] = some acc
parse_digits acc (c ∷ s) =
    let rest = parse_digits (acc * 10 + (c - b'0')) s in
    if within b'0' b'9' c && ltb (acc * 10 + (c - b'0')) usize_mod then rest else none

abbrev parse_unsigned : Bytes → Option ℕ
parse_unsigned [] = none
parse_unsigned (c ∷ s) = parse_digits 0 (c ∷ s)

-- `str::parse::<usize>`: an optional plus sign and at least one digit.
unfoldable pub parse_usize : Bytes → Option ℕ
parse_usize [] = none
parse_usize (c ∷ s) = if c == b'+' then parse_unsigned s else parse_unsigned (c ∷ s)

-- The value, if the line is the header that is looked for.
unfoldable pub length_line : Bytes → Option ℕ
length_line l = do
  (k, v) ← split_once b':' l
  if same_ignoring_case k (lit "content-length")
      then some (value_or 0 (parse_usize (trim v)))
      else none

unfoldable pub content_length_in : List Bytes → ℕ
content_length_in [] = 0
content_length_in (l ∷ ls) = value_or (content_length_in ls) (length_line l)

unfoldable pub content_length : Bytes → ℕ → ℕ
content_length bytes stop = content_length_in (lines (from_utf8_lossy (take stop bytes)))

abbrev pub max_request_bytes : ℕ
max_request_bytes = 2 ^ 20

-- 5 s, in nanoseconds.
abbrev pub request_deadline : ℕ
request_deadline = 5 * 10 ^ 9

-- What `read` gives: an error, or bytes (none at the end of the stream).
pub data ReadResult : Type 0 where
  failed : ReadResult
  got : Bytes → ReadResult

-- One round of the loop: the clock at its head, and the result of its `read`.
pub record Round : Type 0 where
  pub clock : ℕ
  pub result : ReadResult

abbrev pub Connection : Type 0
Connection = ℕ → Round

pub data Reading : Type 0 where
  out_of_fuel : Reading
  refused : Reading
  complete : Bytes → Reading

-- `header_end` and `want` once the blank line is there.
find_end : Bytes → Option (ℕ × ℕ) → Option (ℕ × ℕ)
find_end bytes (some found) = some found
find_end bytes none = Option.map (λ h. (h, content_length bytes h)) (header_end bytes)

-- `data.len() >= h + want`, where the sum wraps as `usize` does in a release build.
is_whole : Bytes → Option (ℕ × ℕ) → Bool
is_whole bytes none = false
is_whole bytes (some (h, want)) = leb ((h + want) % usize_mod) (length bytes)

is_nil : Bytes → Bool
is_nil [] = true
is_nil (c ∷ s) = false

-- The loop from its k-th round on, with the bytes so far.
pub read_loop : ℕ → Connection → ℕ → ℕ → Bytes → Option (ℕ × ℕ) → Reading
read_loop zero conn deadline k bytes end = out_of_fuel
read_loop (suc fuel) conn deadline k bytes end =
    if ltb deadline (conn k).clock then refused else elim (conn k).result [
      | failed ↦ refused
      | got chunk ↦
          let more = bytes ++ chunk in
          let end' = find_end more end in
          let rest = read_loop fuel conn deadline (k + 1) more end' in
          if is_nil chunk
          then complete bytes
          else if ltb max_request_bytes (length more)
          then refused
          else if is_whole more end'
          then complete more
          else rest
    ]

-- Every round but the last adds a byte, so that this fuel is enough.
abbrev pub read_fuel : ℕ
read_fuel = max_request_bytes + 2

pub read_http_request : Connection → ℕ → Option HttpRequest
read_http_request conn start =
    elim (read_loop read_fuel conn (start + request_deadline) 0 [] none) [
      | out_of_fuel ↦ none
      | refused ↦ none
      | complete bytes ↦ parse_http_request bytes
    ]
