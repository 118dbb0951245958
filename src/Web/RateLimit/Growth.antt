-- ===== src/Web/RateLimit/Growth.antt =====
-- What the sweeps of the rate limiter leave behind.
use allgres.Base.{ℕ, ◌≡◌, ◌≢◌, arith, Key, List, ◌∷◌, some}
use allgres.Web.RateLimit.{Hits, rate_check}

module _ {K : Type 0} ⦃e : Key K⦄ where
  -- A request of one address leaves the times kept for another address as they are, however old
  -- they are, if there are any.
  pub rate_check-other :
      (m : Hits K) (ip other : K) (now window limit hit : ℕ) (hits : List ℕ)
      → other ≢ ip
      → m other ≡ some (hit ∷ hits)
      → (rate_check m ip now window limit).0 other ≡ some (hit ∷ hits)
  unfolding rate_check
  rate_check-other m ip other now window limit hit hits ne h = ground (arith, e.same_iff ip other)
