-- ===== src/Worker/Ident/Quote.antt =====
-- A quoted body is closed where it ends, and nowhere before.
use allgres.Base.{
  all-append, ℕ, zero, suc, ◌+◌, ◌≤◌, ◌<◌, true, false, not, some, [], ◌∷◌, ◌++◌, ◌≡◌, refl, sym,
  ap, ◌∙◌, arith, ◌==◌, length, all, length-append, Bool-cases, inl, inr, append-nil, take,
}
use allgres.Bytes.{Bytes, lit}
use allgres.Bytes.Compare.{starts_with, starts_with-append}
use allgres.Bytes.Search.{contains, find, before, starts_with-length}
use allgres.Worker.Ident.{delimiter, fresh_tag, quote_fuel, enclosed, dollar_quote}

contains-length : (n s : Bytes) → contains n s ≡ true → length n ≤ length s
unfolding contains
contains-length n [] h = starts_with-length n [] h
contains-length n (c ∷ s) h = ground (arith, starts_with-length n (c ∷ s), contains-length n s)

abbrev pub Lacks : ℕ → Bytes → Type 0
Lacks x n = all (λ c. not (c == x)) n ≡ true

-- What the loop gives, that it gives something, and that it keeps what `x` does not break.
fresh_tag_lem :
    (P : Bytes → Type 0)
    → ((t : Bytes) → P t → P (t ++ b'x' ∷ []))
    → (fuel : ℕ) (body tag : Bytes) → length body < fuel + length tag
    → 0 < fuel
    → P tag
    → (t : Bytes) × (fresh_tag fuel body tag ≡ some t) × (contains (delimiter t) body ≡ false) × P t
unfolding fresh_tag
fresh_tag_lem P grow zero body tag h p l = absurd (omega arith)
fresh_tag_lem P grow (suc fuel) body tag h p l = elim (Bool-cases (contains (delimiter tag) body)) [
  | inl e ↦
      let fits = contains-length (delimiter tag) body e in
      let more = length-append tag (b'x' ∷ []) in
      let long = length-append tag (b'$' ∷ []) in
      rw (e, fresh_tag)
        (fresh_tag_lem P grow fuel body (tag ++ b'x' ∷ []) (omega arith) (omega arith) (grow tag l))
  | inr e ↦ rw (e, fresh_tag) (tag, refl, e, l)
]

Lacks-grow : (t : Bytes) → Lacks b'\n' t → Lacks b'\n' (t ++ b'x' ∷ [])
Lacks-grow t l = all-append (λ c. not (c == b'\n')) t (b'x' ∷ []) ∙ rw l refl

-- A needle without `x` cannot reach over it.
starts_with-over :
    (x : ℕ) (n a r : Bytes) → Lacks x n → starts_with n (a ++ x ∷ r) ≡ starts_with n a
unfolding starts_with
starts_with-over x [] [] r l = refl
starts_with-over x [] (c ∷ a) r l = refl
starts_with-over x (d ∷ n) [] r l = ground arith
starts_with-over x (d ∷ n) (c ∷ a) r l = ground (arith, starts_with-over x n a r)

find-over :
    (x d : ℕ) (n a r : Bytes)
    → Lacks x (d ∷ n)
    → contains (d ∷ n) a ≡ false
    → find (d ∷ n) (a ++ x ∷ ((d ∷ n) ++ r)) ≡ some (suc (length a))
unfolding contains find
find-over x d n [] r l c =
    ground (arith, starts_with-over x (d ∷ n) [] ((d ∷ n) ++ r) l, starts_with-append (d ∷ n) r)
find-over x d n (y ∷ a) r l c =
    ground (arith, starts_with-over x (d ∷ n) (y ∷ a) ((d ∷ n) ++ r) l, find-over x d n a r l)

take_over : (a : Bytes) (x : ℕ) (r : Bytes) → take (suc (length a)) (a ++ x ∷ r) ≡ a ++ x ∷ []
take_over [] x r = refl
take_over (c ∷ a) x r = ap (◌∷◌ c) (take_over a x r)

delimiter-Lacks : (tag : Bytes) → Lacks b'\n' tag → Lacks b'\n' (delimiter tag)
delimiter-Lacks tag l = all-append (λ c. not (c == b'\n')) tag (b'$' ∷ []) ∙ rw l refl

before-enclosed :
    (tag body : Bytes)
    → Lacks b'\n' tag
    → contains (delimiter tag) body ≡ false
    → before (delimiter tag) (enclosed tag body) ≡ b'\n' ∷ (body ++ b'\n' ∷ [])
unfolding before
before-enclosed tag body l c =
    let found : find (delimiter tag) (enclosed tag body) ≡ some (suc (suc (length body))) =
      ap (λ r. find (delimiter tag) (b'\n' ∷ (body ++ b'\n' ∷ r)))
        (sym (append-nil (delimiter tag)))
      ∙ find-over b'\n' b'$' (tag ++ b'$' ∷ []) (b'\n' ∷ body) [] (delimiter-Lacks tag l)
          (unfold contains starts_with in c) in
    rw (found, before) (take_over (b'\n' ∷ body) b'\n' (delimiter tag))

-- The loop for a tag always ends, and the text up to the first closing delimiter is exactly the
-- body, between two newlines, whatever the body holds; the clock's digits hold no newline.
pub dollar_quote_lem :
    (nanos body : Bytes)
    → Lacks b'\n' nanos
    → (tag : Bytes) × (dollar_quote nanos body ≡ some (tag, delimiter tag ++ enclosed tag body))
      × (before (delimiter tag) (enclosed tag body) ≡ b'\n' ∷ (body ++ b'\n' ∷ []))
unfolding dollar_quote
dollar_quote_lem nanos body l =
    let (tag, made, free, plain) =
      fresh_tag_lem (Lacks b'\n') Lacks-grow (quote_fuel body) body (lit "body_" ++ nanos)
        (omega arith) (omega arith) l in
    (tag, rw made refl, before-enclosed tag body plain free)

-- A quoted body is always made, and does not hold the delimiter that closes it.
pub dollar_quote-closed :
    (nanos body : Bytes)
    → (tag : Bytes) × (dollar_quote nanos body ≡ some (tag, delimiter tag ++ enclosed tag body))
      × (contains (delimiter tag) body ≡ false)
unfolding dollar_quote
dollar_quote-closed nanos body =
    let (tag, made, free, _) =
      fresh_tag_lem (λ t. Unit) (λ t l. tt) (quote_fuel body) body (lit "body_" ++ nanos)
        (omega arith) (omega arith) tt in
    (tag, rw made refl, free)
