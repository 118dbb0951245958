-- ===== src/Web/RateLimit/Lockout.antt =====
-- The lockout after failed logins, against a log of all failures.
use allgres.Base.{
  ℕ, ◌≤◌, Bool, ◌≡◌, refl, ap, ap₂, arith, leb, Key, empty_map, List, [], ◌∷◌, length, keep,
}
use allgres.Web.RateLimit.{
  is_recent, hits_of, RateWindows, auth_failures_exceeded, record_auth_failure, rate_limited,
  rate_auth_fail_limit, rate_auth_fail_window,
}
use allgres.Web.RateLimit.Window.{recent_count, keep-append, keep-keep_recent}

-- What the server does with the failures of an address, at the time of each call.
pub data LoginOp (K : Type 0) : Type 0 where
  asks fails : K → ℕ → LoginOp K

abbrev pub InOrder : {K : Type 0} → ℕ → List (LoginOp K) → Type 0
InOrder now [] = Unit
InOrder now (asks ip t ∷ ops) = (now ≤ t) × InOrder t ops
InOrder now (fails ip t ∷ ops) = (now ≤ t) × InOrder t ops

module _ {K : Type 0} ⦃e : Key K⦄ where
  -- The answers of the code to the questions whether an address is locked out.
  pub answers : RateWindows K → List (LoginOp K) → List Bool
  answers w [] = []
  answers w (asks ip t ∷ ops) =
      let (w', locked) = auth_failures_exceeded w ip t in locked ∷ answers w' ops
  answers w (fails ip t ∷ ops) = answers (record_auth_failure w ip t) ops

  abbrev recent_failures : K → ℕ → List (K × ℕ) → ℕ
  recent_failures = recent_count rate_auth_fail_window

  -- The same from the log of all failures.
  pub logged_answers : List (K × ℕ) → List (LoginOp K) → List Bool
  logged_answers log [] = []
  logged_answers log (asks ip t ∷ ops) =
      leb rate_auth_fail_limit (recent_failures ip t log) ∷ logged_answers log ops
  logged_answers log (fails ip t ∷ ops) = logged_answers ((ip, t) ∷ log) ops

  abbrev Agree : ℕ → RateWindows K → List (K × ℕ) → Type 0
  Agree now w log =
      (ip : K) (later : ℕ)
      → now ≤ later
      → length (keep (is_recent later rate_auth_fail_window) (hits_of w.auth_fail ip))
        ≡ recent_failures ip later log

  asks-Agree :
      (w : RateWindows K) (log : List (K × ℕ)) (ip : K) (now t : ℕ)
      → Agree now w log
      → now ≤ t
      → Agree t (auth_failures_exceeded w ip t).0 log
  unfolding auth_failures_exceeded
  asks-Agree w log ip now t h le j later after = ground (
    arith,
    h j later,
    e.same_iff ip j,
    keep-keep_recent rate_auth_fail_window t later (hits_of w.auth_fail j) after,
  )

  fails-Agree :
      (w : RateWindows K) (log : List (K × ℕ)) (ip : K) (now t : ℕ)
      → Agree now w log
      → now ≤ t
      → Agree t (record_auth_failure w ip t) ((ip, t) ∷ log)
  unfolding record_auth_failure recent_count
  fails-Agree w log ip now t h le j later after = ground (
    arith,
    h j later,
    e.same_iff ip j,
    keep-append (is_recent later rate_auth_fail_window) (hits_of w.auth_fail j) t,
  )

  answers_lem :
      (w : RateWindows K) (log : List (K × ℕ)) (now : ℕ) (ops : List (LoginOp K))
      → Agree now w log
      → InOrder now ops
      → answers w ops ≡ logged_answers log ops
  unfolding answers logged_answers
  answers_lem w log now [] h o = refl
  answers_lem w log now (asks ip t ∷ ops) h o =
      ap₂ ◌∷◌ (unfold auth_failures_exceeded in ap (leb rate_auth_fail_limit) (h ip t o.0)) (
        answers_lem (auth_failures_exceeded w ip t).0 log t ops (asks-Agree w log ip now t h o.0)
          o.1)
  answers_lem w log now (fails ip t ∷ ops) h o =
      answers_lem (record_auth_failure w ip t) ((ip, t) ∷ log) t ops
        (fails-Agree w log ip now t h o.0) o.1

  -- From empty windows, an address is locked out exactly while at least 20 of all its failures
  -- are less than 300 s old, for any sequence of questions and failures in the order of time.
  pub answers-logged :
      (ops : List (LoginOp K))
      → InOrder 0 ops
      → answers (record { general = empty_map; auth_fail = empty_map }) ops ≡ logged_answers [] ops
  answers-logged ops o = answers_lem _ [] 0 ops (λ ip later h. unfold recent_count in refl) o

  -- Counting a request in the general window leaves the lockout as it is.
  pub auth_failures_exceeded-rate_limited :
      (w : RateWindows K) (ip : K) (t now : ℕ)
      → (auth_failures_exceeded (rate_limited w ip t).0 ip now).1
        ≡ (auth_failures_exceeded w ip now).1
  unfolding auth_failures_exceeded rate_limited
  auth_failures_exceeded-rate_limited w ip t now = refl
