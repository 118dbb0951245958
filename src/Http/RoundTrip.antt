-- ===== src/Http/RoundTrip.antt =====
-- A request that a client writes, and sends in any pieces, is read back by `read_http_request`.
use allgres.Base.{
  map, ℕ, ◌+◌, ◌≤◌, ◌<◌, true, false, not, List, [], ◌∷◌, ◌++◌, none, some, ◌≡◌, refl, ap, sym, ◌∙◌,
  arith, ◌==◌, all, all-append, length, length-append, inl, inr, Option-cases, take, take-length,
  drop-length,
}
use allgres.Bytes.{Bytes, lit}
use allgres.Bytes.Compare.{same, same_ignoring_case, to_lower}
use allgres.Bytes.Split.{lines, split_whitespace, split_once}
use allgres.Bytes.Split.Lines.{in_line, split_once-append}
use allgres.Bytes.Split.Words.{no_white, no_white-in_line, split_whitespace_words}
use allgres.Utf8.{IsUtf8, from_utf8_lossy}
use allgres.Utf8.Lossy.{from_utf8_lossy_of_IsUtf8}
use allgres.Http.{
  HttpRequest, Connection, header_end, length_line, content_length_in, content_length,
  parse_http_request, read_http_request, max_request_bytes, request_deadline,
}
use allgres.Http.Pieces.{concat, Delivers, IsWhole, read_http_request-concat}
use allgres.Http.Head.{AreLines, lines-ended, header_end-ended}
use allgres.Http.Printed.{
  AreHeaders-AreLines, print_header, first_line, print_head, print_request, AreHeaders,
  header_lines, parse_headers-header_lines, declared, content_length_in-header_lines,
}

abbrev pub IsWord : Bytes → Type 0
IsWord w = (0 < length w) × (no_white w ≡ true)

-- A request that can be written: words, headers and valid text; a body of the length that the
-- headers declare; and no more than the limit in all.
pub record IsSendable (r : HttpRequest) : Type 0 where
  pub method : IsWord r.method
  pub no_colon : all (λ c. not (c == b':')) r.method ≡ true
  pub path : IsWord r.path
  pub headers : AreHeaders r.headers
  pub head_text : IsUtf8 (print_head r)
  pub body_text : IsUtf8 r.body
  pub length_declared : declared r.headers ≡ length r.body
  pub fits : length (print_request r) ≤ max_request_bytes

-- A name that holds a space is no other's.
same_space :
    (a x n : Bytes) → all (λ c. not (c == 32)) n ≡ true → same (to_lower (a ++ 32 ∷ x)) n ≡ false
unfolding same
same_space [] x [] h = refl
same_space [] x (c ∷ n) h = ground arith
same_space (b ∷ a) x [] h = refl
same_space (b ∷ a) x (c ∷ n) h = ground (arith, same_space a x n)

-- The first line does not declare a length.
pub length_line_first :
    (a x : Bytes) → all (λ c. not (c == b':')) a ≡ true → length_line (a ++ 32 ∷ x) ≡ none
unfolding length_line split_once same_ignoring_case
length_line_first a x h = elim (Option-cases (split_once b':' x)) [
  | inl e ↦ rw (split_once-append b':' a (32 ∷ x) h) (rw e refl)
  | inr (p, e) ↦
      rw (split_once-append b':' a (32 ∷ x) h)
        (rw e (rw (same_space a p.0 (lit "content-length") refl) refl))
]

module _ (r : HttpRequest) (s : IsSendable r) where
  first_line-in_line : all in_line (first_line r) ≡ true
  first_line-in_line =
      rw
        (
          all-append in_line r.method (32 ∷ (r.path ++ 32 ∷ lit "HTTP/1.1")),
          no_white-in_line r.method s.method.1,
          all-append in_line r.path (32 ∷ lit "HTTP/1.1"),
          no_white-in_line r.path s.path.1,
        )
        refl

  head_AreLines : AreLines (first_line r ∷ map print_header r.headers)
  head_AreLines = (
    omega (arith, length-append r.method (32 ∷ (r.path ++ 32 ∷ lit "HTTP/1.1"))),
    first_line-in_line,
    AreHeaders-AreLines r.headers s.headers,
  )

  header_end-print_request : header_end (print_request r) ≡ some (length (print_head r))
  header_end-print_request =
      header_end-ended (first_line r) (map print_header r.headers) r.body head_AreLines

  head_lines :
      lines (from_utf8_lossy (take (length (print_head r)) (print_request r)))
      ≡ first_line r ∷ header_lines r.headers
  head_lines =
      rw (take-length (print_head r) r.body, from_utf8_lossy_of_IsUtf8 (print_head r) s.head_text)
        (lines-ended (first_line r ∷ map print_header r.headers) head_AreLines)

  content_length-print_request :
      content_length (print_request r) (length (print_head r)) ≡ length r.body
  unfolding content_length content_length_in
  content_length-print_request =
      rw (head_lines, content_length_in)
        (rw (length_line_first r.method (r.path ++ 32 ∷ lit "HTTP/1.1") s.no_colon)
          (content_length_in-header_lines r.headers s.headers ∙ s.length_declared))

  print_request-IsWhole : IsWhole (print_request r) (length (print_head r))
  print_request-IsWhole = record {
    head = header_end-print_request;
    ends =
        length-append (print_head r) r.body
        ∙ ap (λ n. length (print_head r) + n) (sym content_length-print_request);
    fits = s.fits;
  }

  words_of : (ws : List Bytes) × (split_whitespace (first_line r) ≡ r.method ∷ r.path ∷ ws)
  words_of =
      split_whitespace_words r.method r.path (lit "HTTP/1.1") s.method.0 s.path.0 s.method.1
        s.path.1

  -- The request is parsed as it was written.
  parse_http_request-print_request : parse_http_request (print_request r) ≡ some r
  unfolding parse_http_request
  parse_http_request-print_request = rw header_end-print_request (
      rw
        (
          head_lines,
          words_of.1,
          parse_headers-header_lines r.headers s.headers,
          drop-length (print_head r) r.body,
          from_utf8_lossy_of_IsUtf8 r.body s.body_text,
        )
        refl)

-- A request that a client writes is read back as it is, in whatever pieces it comes by the
-- deadline: if its method and path are words, and no colon is in the method; its headers' names are
-- in lower case and without a colon, and names and values are trimmed and break no line; its text
-- is UTF-8, its body is as long as the headers declare, and it is no longer than 2^20 bytes.
pub read_http_request-print_request :
    (conn : Connection) (start : ℕ) (r : HttpRequest) (p : Bytes) (ps : List Bytes)
    → IsSendable r
    → concat (p ∷ ps) ≡ print_request r
    → Delivers conn (start + request_deadline) 0 (p ∷ ps)
    → read_http_request conn start ≡ some r
read_http_request-print_request conn start r p ps s e d =
    read_http_request-concat conn start (length (print_head r)) p ps d
      (rw e (print_request-IsWhole r s))
    ∙ rw e (parse_http_request-print_request r s)
