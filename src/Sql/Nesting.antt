-- ===== src/Sql/Nesting.antt =====
-- The body of a node ends where its bracket closes.
use allgres.Base.{ℕ, suc, [], ◌∷◌, ◌++◌, ◌≡◌, ◌≢◌, refl, ap, ◌∙◌, arith, append-nil, append_assoc}
use allgres.Bytes.{Bytes}
use allgres.Sql.{nested_body}

module _ (opening close : ℕ) where
  -- Text whose brackets match, but for those that are escaped by a backslash.
  pub data Balanced : Bytes → Type 0 where
    nothing : Balanced []
    plain :
        {x : ℕ} {s : Bytes} → x ≢ b'\\' → x ≢ opening → x ≢ close → Balanced s → Balanced (x ∷ s)
    escaped : {y : ℕ} {s : Bytes} → Balanced s → Balanced (b'\\' ∷ y ∷ s)
    nested : {s t : Bytes} → Balanced s → Balanced t → Balanced (opening ∷ (s ++ close ∷ t))

  -- The two brackets differ, and neither is the backslash.
  pub record AreBrackets : Type 0 where
    pub apart : opening ≢ close
    pub opening_plain : opening ≢ b'\\'
    pub close_plain : close ≢ b'\\'

  nested_body-plain :
      (d x : ℕ) (s : Bytes)
      → x ≢ b'\\'
      → x ≢ opening
      → x ≢ close
      → nested_body opening close d (x ∷ s) ≡ x ∷ nested_body opening close d s
  unfolding nested_body
  nested_body-plain d x [] p q r = ground arith
  nested_body-plain d x (y ∷ s) p q r = ground arith

  nested_body-opening :
      (d : ℕ) (s : Bytes)
      → AreBrackets
      → nested_body opening close d (opening ∷ s) ≡ opening ∷ nested_body opening close (suc d) s
  unfolding nested_body
  nested_body-opening d [] b = ground (arith, b.opening_plain, b.apart)
  nested_body-opening d (y ∷ s) b = ground (arith, b.opening_plain, b.apart)

  nested_body-close :
      (d : ℕ) (s : Bytes)
      → AreBrackets
      → nested_body opening close (suc d) (close ∷ s) ≡ close ∷ nested_body opening close d s
  unfolding nested_body
  nested_body-close d [] b = ground (arith, b.close_plain, b.apart)
  nested_body-close d (y ∷ s) b = ground (arith, b.close_plain, b.apart)

  nested_body-end : (s : Bytes) → AreBrackets → nested_body opening close 0 (close ∷ s) ≡ []
  unfolding nested_body
  nested_body-end [] b = ground (arith, b.close_plain, b.apart)
  nested_body-end (y ∷ s) b = ground (arith, b.close_plain, b.apart)

  nested_body-escaped :
      (d y : ℕ) (s : Bytes)
      → nested_body opening close d (b'\\' ∷ y ∷ s) ≡ b'\\' ∷ y ∷ nested_body opening close d s
  unfolding nested_body
  nested_body-escaped d y s = refl

  nested_body-Balanced :
      (d : ℕ) {s : Bytes} (rest : Bytes)
      → AreBrackets
      → Balanced s
      → nested_body opening close d (s ++ rest) ≡ s ++ nested_body opening close d rest
  nested_body-Balanced d rest b nothing = refl
  nested_body-Balanced d rest b (plain {x = x} {s = s} p q r m) =
      nested_body-plain d x (s ++ rest) p q r ∙ ap (◌∷◌ x) (nested_body-Balanced d rest b m)
  nested_body-Balanced d rest b (escaped {y = y} {s = s} m) =
      nested_body-escaped d y (s ++ rest)
      ∙ ap (λ t. b'\\' ∷ y ∷ t) (nested_body-Balanced d rest b m)
  nested_body-Balanced d rest b (nested {s = s} {t = t} m n) =
      rw
        (
          append_assoc s (close ∷ t) rest,
          append_assoc s (close ∷ t) (nested_body opening close d rest),
        )
        (nested_body-opening d (s ++ close ∷ (t ++ rest)) b
          ∙ ap (◌∷◌ opening) (
              nested_body-Balanced (suc d) (close ∷ (t ++ rest)) b m
              ∙ ap (◌++◌ s) (
                  nested_body-close d (t ++ rest) b
                  ∙ ap (◌∷◌ close) (nested_body-Balanced d rest b n))))

  -- Read behind an opening bracket, the body is all the text up to the bracket that closes it,
  -- whatever brackets match or are escaped within, and whatever follows; the two brackets differ,
  -- and neither is the backslash.
  pub nested_body_lem :
      (s rest : Bytes)
      → AreBrackets
      → Balanced s
      → nested_body opening close 0 (s ++ close ∷ rest) ≡ s
  nested_body_lem s rest b m =
      nested_body-Balanced 0 (close ∷ rest) b m
      ∙ (ap (◌++◌ s) (nested_body-end rest b) ∙ append-nil s)
