-- ===== src/Web/Respond/Framed.antt =====
-- What `respond` writes is framed: the client finds the body, and its length.
use allgres.Base.{
  ℕ, ◌<◌, Bool, true, List, [], ◌∷◌, ◌++◌, some, none, ◌≡◌, refl, sym, arith, ltb, within, all,
  all-append, length, append_assoc, drop, take-length, drop-length,
}
use allgres.Bytes.{Bytes, lit}
use allgres.Bytes.Compare.{same, same_ignoring_case}
use allgres.Bytes.Split.{trim}
use allgres.Bytes.Split.Lines.{in_line, split_once_at}
use allgres.Bytes.Split.Words.{trim_space, trim_word, graphic-no_white}
use allgres.Utf8.{IsUtf8, utf8_from, char_len}
use allgres.Utf8.Lossy.{from_utf8_lossy_of_IsUtf8}
use allgres.Http.{header_end, content_length, content_length_in, length_line, usize_mod}
use allgres.Http.Head.{ended, AreLines, lines-ended, header_end-ended}
use allgres.Http.RoundTrip.{length_line_first}
use allgres.Web.Respond.{Response, crlf, security_headers, decimal, respond}
use allgres.Web.Respond.Decimal.{is_digit, parse_usize-decimal, decimal-digits}

-- A space or a graphic ASCII character.
abbrev pub printable : Bytes → Bool
printable = all (within 32 126)

printable-in_line : (s : Bytes) → printable s ≡ true → all in_line s ≡ true
printable-in_line [] h = refl
printable-in_line (c ∷ s) h = ground (arith, printable-in_line s)

-- ASCII.
is_ascii : Bytes → Bool
is_ascii = all (λ c. ltb c 128)

is_ascii-IsUtf8 : (s : Bytes) → is_ascii s ≡ true → IsUtf8 s
unfolding is_ascii utf8_from char_len
is_ascii-IsUtf8 [] h = refl
is_ascii-IsUtf8 (c ∷ s) h = ground (arith, is_ascii-IsUtf8 s)

abbrev pub ArePrintable : List Bytes → Type 0
ArePrintable [] = Unit
ArePrintable (l ∷ ls) = (0 < length l) × (printable l ≡ true) × ArePrintable ls

ArePrintable-AreLines : (ls : List Bytes) → ArePrintable ls → AreLines ls
ArePrintable-AreLines [] a = tt
ArePrintable-AreLines (l ∷ ls) a = (a.0, printable-in_line l a.1, ArePrintable-AreLines ls a.2)

printable-is_ascii : (s : Bytes) → printable s ≡ true → is_ascii s ≡ true
unfolding is_ascii
printable-is_ascii [] h = refl
printable-is_ascii (c ∷ s) h = ground (arith, printable-is_ascii s)

is_ascii-ended : (ls : List Bytes) → ArePrintable ls → is_ascii (ended ls) ≡ true
unfolding is_ascii
is_ascii-ended [] a = refl
is_ascii-ended (l ∷ ls) a =
    rw (all-append (λ c. ltb c 128) l (13 ∷ 10 ∷ ended ls), printable-is_ascii l a.1)
      (is_ascii-ended ls a.2)

-- What a client reads off a response: where its body starts, the body, and its length.
pub record IsFramed (body bytes : Bytes) : Type 0 where
  pub start : ℕ
  pub head : header_end bytes ≡ some start
  pub rest : drop start bytes ≡ body
  pub declared : content_length bytes start ≡ length body

-- A response whose fields break no line: its further headers are whole lines.
pub record IsPlain (r : Response) : Type 0 where
  pub extra_lines : List Bytes
  pub status : printable r.status ≡ true
  pub content_type : printable r.content_type ≡ true
  pub ended_extra : r.extra ++ crlf ≡ ended extra_lines
  pub printable_extra : ArePrintable extra_lines

status_line : Response → Bytes
status_line r = lit "HTTP/1.1 " ++ r.status

type_line : Response → Bytes
type_line r = lit "Content-Type: " ++ r.content_type

length_line_of : Response → Bytes
length_line_of r = lit "Content-Length: " ++ decimal (length r.body)

fixed_lines : List Bytes
fixed_lines =
    lit "Cache-Control: no-store"
    ∷ lit "Connection: close"
    ∷ lit "X-Content-Type-Options: nosniff"
    ∷ lit "X-Frame-Options: DENY"
    ∷ lit "Referrer-Policy: no-referrer"
    ∷ lit "Cross-Origin-Resource-Policy: same-origin"
    ∷ []

head_lines : Response → List Bytes → List Bytes
head_lines r extra = status_line r ∷ type_line r ∷ length_line_of r ∷ (fixed_lines ++ extra)

respond-ended :
    (r : Response) (p : IsPlain r) → respond r ≡ ended (head_lines r p.extra_lines) ++ r.body
unfolding respond security_headers head_lines status_line type_line length_line_of fixed_lines
respond-ended r p = rw (sym p.ended_extra) (simp append_assoc)

digits-printable : (s : Bytes) → all is_digit s ≡ true → printable s ≡ true
digits-printable [] h = refl
digits-printable (c ∷ s) h = ground (arith, digits-printable s)

digits-graphic : (s : Bytes) → all is_digit s ≡ true → all (within 33 126) s ≡ true
digits-graphic [] h = refl
digits-graphic (c ∷ s) h = ground (arith, digits-graphic s)

head_lines-ArePrintable : (r : Response) (p : IsPlain r) → ArePrintable (head_lines r p.extra_lines)
unfolding head_lines status_line type_line length_line_of fixed_lines
head_lines-ArePrintable r p = (
  omega arith,
  p.status,
  (
    omega arith,
    p.content_type,
    (
      omega arith,
      digits-printable (decimal (length r.body)) (decimal-digits (length r.body)),
      (
        omega arith,
        refl,
        (
          omega arith,
          refl,
          (
            omega arith,
            refl,
            (omega arith, refl, (omega arith, refl, (omega arith, refl, p.printable_extra))),
          ),
        ),
      ),
    ),
  ),
)

trim-decimal : (n : ℕ) → trim (decimal n) ≡ decimal n
trim-decimal n =
    trim_word (decimal n)
      (graphic-no_white (decimal n) (digits-graphic (decimal n) (decimal-digits n)))

length_line-status : (r : Response) → length_line (status_line r) ≡ none
unfolding status_line
length_line-status r = length_line_first (lit "HTTP/1.1") r.status refl

length_line-type : (r : Response) → length_line (type_line r) ≡ none
unfolding type_line length_line same_ignoring_case same
length_line-type r = rw (split_once_at b':' (lit "Content-Type") (32 ∷ r.content_type) refl) refl

length_line-length :
    (r : Response)
    → length r.body < usize_mod
    → length_line (length_line_of r) ≡ some (length r.body)
unfolding length_line_of length_line same_ignoring_case same
length_line-length r h =
    rw
      (
        split_once_at b':' (lit "Content-Length") (32 ∷ decimal (length r.body)) refl,
        trim_space (decimal (length r.body)),
        trim-decimal (length r.body),
        parse_usize-decimal (length r.body) h,
      )
      refl

content_length_in-head_lines :
    (r : Response) (ls : List Bytes)
    → length r.body < usize_mod
    → content_length_in (status_line r ∷ type_line r ∷ length_line_of r ∷ ls) ≡ length r.body
unfolding content_length_in
content_length_in-head_lines r ls h =
    rw (length_line-status r, length_line-type r, length_line-length r h) refl

-- A response without line breaks in its fields is framed.
pub respond-IsFramed :
    (r : Response) → IsPlain r → length r.body < usize_mod → IsFramed r.body (respond r)
unfolding head_lines
respond-IsFramed r p h = rw (respond-ended r p) (record {
  start = length (ended written);
  head =
      header_end-ended (status_line r)
        (type_line r ∷ length_line_of r ∷ (fixed_lines ++ p.extra_lines)) r.body
        (ArePrintable-AreLines written printed);
  rest = drop-length (ended written) r.body;
  declared =
      unfold content_length in
      rw
        (
          take-length (ended written) r.body,
          from_utf8_lossy_of_IsUtf8 (ended written)
              (is_ascii-IsUtf8 (ended written) (is_ascii-ended written printed)),
          lines-ended written (ArePrintable-AreLines written printed),
        )
        (content_length_in-head_lines r ((fixed_lines ++ p.extra_lines) ++ [] ∷ []) h);
})
  where
    written : List Bytes
    written = head_lines r p.extra_lines

    printed : ArePrintable written
    printed = head_lines-ArePrintable r p
