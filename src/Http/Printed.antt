-- ===== src/Http/Printed.antt =====
-- A request as a client writes it: the first line, the headers, a blank line and the body. The
-- lines and the length of its head are read back.
use allgres.Base.{
  map, ℕ, true, not, List, [], ◌∷◌, ◌++◌, none, some, ◌≡◌, refl, ap, arith, ◌==◌, if◌then◌else◌,
  all, all-append, length-append, value_or, inl, inr, Bool-cases,
}
use allgres.Bytes.{Bytes, lit}
use allgres.Bytes.Compare.{same_ignoring_case, to_lower}
use allgres.Bytes.Split.{trim, split_once}
use allgres.Bytes.Split.Lines.{in_line, split_once_at}
use allgres.Bytes.Split.Words.{trim_space}
use allgres.Http.Head.{ended, AreLines}
use allgres.Http.{
  HttpRequest, find_header, parse_usize, length_line, content_length_in, parse_header,
  parse_headers, push_some, ◌>>=◌,
}

abbrev pub print_header : Bytes × Bytes → Bytes
print_header (k, v) = k ++ b':' ∷ 32 ∷ v

abbrev pub print_headers : List (Bytes × Bytes) → Bytes
print_headers hs = ended (map print_header hs)

abbrev pub first_line : HttpRequest → Bytes
first_line r = r.method ++ 32 ∷ (r.path ++ 32 ∷ lit "HTTP/1.1")

abbrev pub print_head : HttpRequest → Bytes
print_head r = first_line r ++ 13 ∷ 10 ∷ print_headers r.headers

abbrev pub print_request : HttpRequest → Bytes
print_request r = print_head r ++ r.body

-- A name in lower case without a colon, and a value; neither starts or ends with white space or
-- breaks the line.
pub record IsHeader (x : Bytes × Bytes) : Type 0 where
  pub name_in_line : all in_line x.0 ≡ true
  pub no_colon : all (λ c. not (c == b':')) x.0 ≡ true
  pub name_trimmed : to_lower (trim x.0) ≡ x.0
  pub value_in_line : all in_line x.1 ≡ true
  pub value_trimmed : trim x.1 ≡ x.1

abbrev pub AreHeaders : List (Bytes × Bytes) → Type 0
AreHeaders [] = Unit
AreHeaders (x ∷ hs) = IsHeader x × AreHeaders hs

print_header-in_line : (x : Bytes × Bytes) → IsHeader x → all in_line (print_header x) ≡ true
print_header-in_line x i =
    rw (all-append in_line x.0 (b':' ∷ 32 ∷ x.1), i.name_in_line) i.value_in_line

abbrev pub header_lines : List (Bytes × Bytes) → List Bytes
header_lines hs = map print_header hs ++ [] ∷ []

pub AreHeaders-AreLines :
    (hs : List (Bytes × Bytes)) → AreHeaders hs → AreLines (map print_header hs)
AreHeaders-AreLines [] a = tt
AreHeaders-AreLines (x ∷ hs) a = (
  omega (arith, length-append x.0 (b':' ∷ 32 ∷ x.1)),
  print_header-in_line x a.0,
  AreHeaders-AreLines hs a.1,
)

-- Headers are parsed as they were.
parse_header-print_header :
    (x : Bytes × Bytes) → IsHeader x → parse_header (print_header x) ≡ some x
unfolding parse_header
parse_header-print_header x i =
    rw
      (
        split_once_at b':' x.0 (32 ∷ x.1) i.no_colon,
        trim_space x.1,
        i.name_trimmed,
        i.value_trimmed,
      )
      refl

pub parse_headers-header_lines :
    (hs : List (Bytes × Bytes)) → AreHeaders hs → parse_headers (header_lines hs) ≡ hs
unfolding parse_headers push_some
parse_headers-header_lines [] a = unfold parse_header split_once in refl
parse_headers-header_lines (x ∷ hs) a =
    rw (parse_header-print_header x a.0) (ap (◌∷◌ x) (parse_headers-header_lines hs a.1))

-- The length that the headers declare is that of the header, 0 where there is none.
abbrev pub declared : List (Bytes × Bytes) → ℕ
declared hs = value_or 0 (find_header (lit "content-length") hs >>= parse_usize)

length_line-print_header :
    (x : Bytes × Bytes)
    → IsHeader x
    → length_line (print_header x) ≡ (
        if same_ignoring_case x.0 (lit "content-length")
        then some (value_or 0 (parse_usize x.1))
        else none)
unfolding length_line
length_line-print_header x i =
    rw (split_once_at b':' x.0 (32 ∷ x.1) i.no_colon, trim_space x.1, i.value_trimmed) refl

pub content_length_in-header_lines :
    (hs : List (Bytes × Bytes)) → AreHeaders hs → content_length_in (header_lines hs) ≡ declared hs
unfolding content_length_in find_header
content_length_in-header_lines [] a = unfold length_line split_once in refl
content_length_in-header_lines (x ∷ hs) a =
    rw (length_line-print_header x a.0)
      (elim (Bool-cases (same_ignoring_case x.0 (lit "content-length"))) [
        | inl e ↦ rw e refl
        | inr e ↦ rw e (content_length_in-header_lines hs a.1)
      ])
