-- ===== src/Http/Pieces.antt =====
-- How the bytes of a request are cut into reads does not matter to `read_http_request`.
use allgres.Base.{
  ℕ, zero, suc, ◌+◌, ◌≤◌, ◌<◌, true, false, List, [], ◌∷◌, ◌++◌, Option, none, some, ◌≡◌, refl, ap,
  ◌∙◌, ◌⊎◌, inl, inr, arith, length, length-append, take-append, append-nil, append_assoc,
  if◌then◌else◌, Option-cases,
}
use allgres.Bytes.{Bytes}
use allgres.Bytes.Search.{find, find-fits, find-append}
use allgres.Http.{
  Connection, got, complete, is_nil, is_whole, find_end, blank_line, header_end, content_length,
  parse_http_request, max_request_bytes, read_loop, read_fuel, request_deadline, read_http_request,
}

abbrev pub concat : List Bytes → Bytes
concat [] = []
concat (p ∷ ps) = p ++ concat ps

-- From its k-th read on, and by the deadline, the connection gives these pieces.
abbrev pub Delivers : Connection → ℕ → ℕ → List Bytes → Type 0
Delivers conn deadline k [] = Unit
Delivers conn deadline k (p ∷ ps) =
    ((conn k).clock ≤ deadline)
    × ((conn k).result ≡ got p)
    × (0 < length p)
    × Delivers conn deadline (k + 1) ps

-- A head up to a blank line, and as many bytes of a body as it declares.
pub record IsWhole (bytes : Bytes) (h : ℕ) : Type 0 where
  pub head : header_end bytes ≡ some h
  pub ends : length bytes ≡ h + content_length bytes h
  pub fits : length bytes ≤ max_request_bytes

header_end-fits : (s : Bytes) (h : ℕ) → header_end s ≡ some h → h ≤ length s
unfolding header_end
header_end-fits s h e = elim (Option-cases (find blank_line s)) [
  | inl n ↦ ground arith
  | inr (p, f) ↦ ground (arith, find-fits blank_line s p)
]

header_end-append : (s t : Bytes) (h : ℕ) → header_end s ≡ some h → header_end (s ++ t) ≡ some h
unfolding header_end
header_end-append s t h e = elim (Option-cases (find blank_line s)) [
  | inl n ↦ ground arith
  | inr (p, f) ↦ rw (find-append blank_line s t p f) (ground arith)
]

content_length-append :
    (s t : Bytes) (h : ℕ) → h ≤ length s → content_length (s ++ t) h ≡ content_length s h
unfolding content_length
content_length-append s t h e = rw (take-append h s t e) refl

-- What the loop knows of the head: nothing yet, or what the whole request says.
abbrev Knows : Bytes → ℕ → Option (ℕ × ℕ) → Type 0
Knows bytes h end = (end ≡ none) ⊎ (end ≡ some (h, content_length bytes h))

module _ (bytes : Bytes) (h : ℕ) (w : IsWhole bytes h) where
  find_end-Knows :
      (s t : Bytes) (end : Option (ℕ × ℕ))
      → s ++ t ≡ bytes
      → Knows bytes h end
      → Knows bytes h (find_end s end)
  unfolding find_end
  find_end-Knows s t end e (inr k) = inr (rw (k, find_end) refl)
  find_end-Knows s t end e (inl k) = elim (Option-cases (header_end s)) [
    | inl n ↦ inl (rw (k, find_end) (rw n refl))
    | inr (h', f) ↦ inr (
        rw (k, find_end)
          (ground (
            arith,
            ap header_end e,
            header_end-append s t h' f,
            w.head,
            content_length-append s t h' (header_end-fits s h' f),
            ap (λ z. content_length z h) e,
          )))
  ]

  -- The loop stops at the last piece, and not before.
  is_whole-find_end :
      (s t : Bytes) (end : Option (ℕ × ℕ))
      → s ++ t ≡ bytes
      → 0 < length t
      → Knows bytes h end
      → is_whole s (find_end s end) ≡ false
  unfolding is_whole
  is_whole-find_end s t end e n k = elim (find_end-Knows s t end e k) [
    | inl f ↦ rw (f, is_whole) refl
    | inr f ↦ rw (f, is_whole) (ground (arith, w.ends, w.fits, ap length e, length-append s t))
  ]

  is_whole_last :
      (end : Option (ℕ × ℕ)) → Knows bytes h end → is_whole bytes (find_end bytes end) ≡ true
  unfolding is_whole find_end
  is_whole_last end (inr k) = rw (k, is_whole) (ground (arith, w.ends, w.fits))
  is_whole_last end (inl k) =
      rw (k, find_end) (rw (w.head, is_whole) (ground (arith, w.ends, w.fits)))

is_nil_pos : (p : Bytes) → 0 < length p → is_nil p ≡ false
unfolding is_nil
is_nil_pos [] h = absurd (omega arith)
is_nil_pos (c ∷ s) h = refl

-- A round that brings a piece by the deadline, within the limit.
read_loop_step :
    (fuel : ℕ) (conn : Connection) (deadline k : ℕ) (bytes p : Bytes) (end : Option (ℕ × ℕ))
    → (conn k).clock ≤ deadline
    → (conn k).result ≡ got p
    → 0 < length p
    → length (bytes ++ p) ≤ max_request_bytes
    → read_loop (suc fuel) conn deadline k bytes end ≡ (
        if is_whole (bytes ++ p) (find_end (bytes ++ p) end)
        then complete (bytes ++ p)
        else read_loop fuel conn deadline (k + 1) (bytes ++ p) (find_end (bytes ++ p) end))
unfolding read_loop
read_loop_step fuel conn deadline k bytes p end c r n l =
    rw (r, read_loop) (ground (arith, is_nil_pos p n))

module _ (conn : Connection) (deadline : ℕ) (bytes : Bytes) (h : ℕ) (w : IsWhole bytes h) where
  read_loop-Delivers :
      (p : Bytes) (ps : List Bytes) (fuel k : ℕ) (s : Bytes) (end : Option (ℕ × ℕ))
      → Delivers conn deadline k (p ∷ ps)
      → s ++ concat (p ∷ ps) ≡ bytes
      → Knows bytes h end
      → length bytes < fuel + length s
      → read_loop fuel conn deadline k s end ≡ complete bytes
  read_loop-Delivers p ps zero k s end d e kn f =
      absurd (omega (arith, ap length e, length-append s (p ++ concat ps)))
  read_loop-Delivers p [] (suc fuel) k s end d e kn f =
      let whole : s ++ p ≡ bytes = rw append-nil at e in
      read_loop_step fuel conn deadline k s p end d.0 d.1 d.2 (rw whole w.fits)
      ∙ rw whole (rw (is_whole_last bytes h w end kn) refl)
  read_loop-Delivers p (q ∷ qs) (suc fuel) k s end d e kn f =
      let cut : (s ++ p) ++ concat (q ∷ qs) ≡ bytes = append_assoc s p (concat (q ∷ qs)) ∙ e in
      let n : 0 < length (concat (q ∷ qs)) = omega (arith, d.3.2, length-append q (concat qs)) in
      let l : length (s ++ p) < length bytes =
        omega (arith, ap length cut, length-append (s ++ p) (concat (q ∷ qs)), n) in
      read_loop_step fuel conn deadline k s p end d.0 d.1 d.2 (omega (arith, w.fits, l))
      ∙ rw (is_whole-find_end bytes h w (s ++ p) (concat (q ∷ qs)) end cut n kn) (
          read_loop-Delivers q qs fuel (k + 1) (s ++ p) (find_end (s ++ p) end) d.3 cut
            (find_end-Knows bytes h w (s ++ p) (concat (q ∷ qs)) end cut kn)
            (omega (arith, f, length-append s p, d.2)))

-- A request that comes in pieces, each by the deadline, is read as the parser reads it whole,
-- however it is cut: if its body is as long as its head declares, and it keeps to the limit.
pub read_http_request-concat :
    (conn : Connection) (start h : ℕ) (p : Bytes) (ps : List Bytes)
    → Delivers conn (start + request_deadline) 0 (p ∷ ps)
    → IsWhole (concat (p ∷ ps)) h
    → read_http_request conn start ≡ parse_http_request (concat (p ∷ ps))
unfolding read_http_request
read_http_request-concat conn start h p ps d w =
    rw
      (
        read_loop-Delivers conn (start + request_deadline) (concat (p ∷ ps)) h w p ps read_fuel 0 []
            none d refl (inl refl) (omega (arith, w.fits)),
        read_http_request,
      )
      refl
