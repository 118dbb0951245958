-- ===== src/Web/RateLimit.antt =====
-- src/web.rs: request counts per address, in sliding windows.
pub mod Tests
pub mod Window
pub mod Growth
pub mod Lockout
use allgres.Base.{
  ℕ, ◌-◌, ◌*◌, ◌^◌, Bool, true, false, not, ltb, leb, if◌then◌else◌, Map, Key, insert, retain, List,
  [], ◌∷◌, ◌++◌, length, keep, is_empty, value_or,
}

-- The times of an address's requests that count, oldest first.
abbrev pub Hits : Type 0 → Type 0
Hits K = Map K (List ℕ)

-- `now.duration_since(*t) < window`, where the difference stops at 0.
abbrev pub is_recent : ℕ → ℕ → ℕ → Bool
is_recent now window t = ltb (now - t) window

abbrev pub hits_of : {K : Type 0} → Hits K → K → List ℕ
hits_of m ip = value_or [] (m ip)

module _ {K : Type 0} ⦃e : Key K⦄ where
  -- True if the hit is within the limit, which records it.
  pub rate_check : Hits K → K → ℕ → ℕ → ℕ → Hits K × Bool
  rate_check m ip now window limit =
      let hits = keep (is_recent now window) (hits_of m ip) in
      if leb limit (length hits)
      then (insert ip hits m, false)
      else (retain (λ v. not (is_empty v)) (insert ip (hits ++ now ∷ []) m), true)

abbrev pub rate_general_limit : ℕ
rate_general_limit = 120

abbrev pub rate_general_window : ℕ
rate_general_window = 60 * 10 ^ 9

abbrev pub rate_auth_fail_limit : ℕ
rate_auth_fail_limit = 20

abbrev pub rate_auth_fail_window : ℕ
rate_auth_fail_window = 300 * 10 ^ 9

pub record RateWindows (K : Type 0) : Type 0 where
  pub general : Hits K
  pub auth_fail : Hits K

module _ {K : Type 0} ⦃e : Key K⦄ where
  -- True means that the request is to be refused.
  pub rate_limited : RateWindows K → K → ℕ → RateWindows K × Bool
  rate_limited w ip now =
      let (m, admitted) = rate_check w.general ip now rate_general_window rate_general_limit in
      (record w { general = m }, not admitted)

  pub auth_failures_exceeded : RateWindows K → K → ℕ → RateWindows K × Bool
  auth_failures_exceeded w ip now =
      let hits = keep (is_recent now rate_auth_fail_window) (hits_of w.auth_fail ip) in
      (record w { auth_fail = insert ip hits w.auth_fail }, leb rate_auth_fail_limit (length hits))

  pub record_auth_failure : RateWindows K → K → ℕ → RateWindows K
  record_auth_failure w ip now = record w {
    auth_fail = insert ip (hits_of w.auth_fail ip ++ now ∷ []) w.auth_fail;
  }
