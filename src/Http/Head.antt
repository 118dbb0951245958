-- ===== src/Http/Head.antt =====
-- A head: lines that end with "\r\n", and a blank one. Its lines and its length are read back.
use allgres.Base.{
  ℕ, ◌+◌, ◌<◌, true, List, [], ◌∷◌, ◌++◌, some, ◌≡◌, refl, ap, ◌∙◌, arith, all, length,
  length-append, append_assoc,
}
use allgres.Bytes.{Bytes}
use allgres.Bytes.Compare.{starts_with}
use allgres.Bytes.Search.{find}
use allgres.Bytes.Split.{lines}
use allgres.Bytes.Split.Lines.{in_line, lines-append, lines-nil, find-line}
use allgres.Http.{header_end, blank_line}

abbrev pub ended : List Bytes → Bytes
ended [] = 13 ∷ 10 ∷ []
ended (l ∷ ls) = l ++ 13 ∷ 10 ∷ ended ls

abbrev pub AreLines : List Bytes → Type 0
AreLines [] = Unit
AreLines (l ∷ ls) = (0 < length l) × (all in_line l ≡ true) × AreLines ls

pub lines-ended : (ls : List Bytes) → AreLines ls → lines (ended ls) ≡ ls ++ [] ∷ []
lines-ended [] a = lines-append [] [] refl ∙ ap (◌∷◌ []) lines-nil
lines-ended (l ∷ ls) a = lines-append l (ended ls) a.1 ∙ ap (◌∷◌ l) (lines-ended ls a.2)

-- A line that does not start with a carriage return is not the blank one.
find_crlf :
    (l s : Bytes) {p : ℕ}
    → 0 < length l
    → all in_line l ≡ true
    → find blank_line (l ++ s) ≡ some p
    → find blank_line (13 ∷ 10 ∷ (l ++ s)) ≡ some (2 + p)
unfolding find starts_with
find_crlf [] s n h e = absurd (omega arith)
find_crlf (c ∷ l) s n h e = ground arith

-- The first blank line is that behind the others.
find-ended :
    (l : Bytes) (ls : List Bytes) (body : Bytes)
    → AreLines (l ∷ ls)
    → (p : ℕ) × (find blank_line (l ++ (13 ∷ 10 ∷ (ended ls ++ body))) ≡ some p)
      × (p + 4 ≡ length (ended (l ∷ ls)))
find-ended l [] body a = (
  length l + 0,
  find-line (10 ∷ 13 ∷ 10 ∷ []) l (13 ∷ 10 ∷ 13 ∷ 10 ∷ body) a.1 (unfold find starts_with in refl),
  omega (arith, length-append l (13 ∷ 10 ∷ 13 ∷ 10 ∷ [])),
)
find-ended l (m ∷ ms) body a =
    let (p, e, n) = find-ended m ms body a.2 in
    (
      length l + (2 + p),
      find-line (10 ∷ 13 ∷ 10 ∷ []) l _ a.1 (
          rw (append_assoc m (13 ∷ 10 ∷ ended ms) body)
            (find_crlf m (13 ∷ 10 ∷ (ended ms ++ body)) a.2.0 a.2.1 e)),
      omega (arith, n, length-append l (13 ∷ 10 ∷ ended (m ∷ ms))),
    )

pub header_end-ended :
    (l : Bytes) (ls : List Bytes) (body : Bytes)
    → AreLines (l ∷ ls)
    → header_end (ended (l ∷ ls) ++ body) ≡ some (length (ended (l ∷ ls)))
unfolding header_end
header_end-ended l ls body a =
    let (p, e, n) = find-ended l ls body a in
    rw (append_assoc l (13 ∷ 10 ∷ ended ls) body, e) (ap some n)
