-- ===== src/Web/RateLimit/Tests.antt =====
-- The laws of the rate limiter at concrete requests.
use allgres.Base.{ℕ, ◌≤◌, true, false, List, [], ◌∷◌, ◌≡◌, refl, arith, empty_map}
use allgres.Bytes.{Bytes, lit}
use allgres.Bytes.Compare.{bytes_key, same}
use allgres.Web.RateLimit.{rate_check}
use allgres.Web.RateLimit.Window.{
  verdicts, logged_verdicts, admitted_from, window_count, verdicts-logged, admitted-le-limit,
}
use allgres.Web.RateLimit.Lockout.{asks, fails, answers, logged_answers, answers-logged}

-- Four requests of one address, the last when the first is old.
abbrev burst : List (Bytes × ℕ)
burst = (lit "a", 1) ∷ (lit "a", 2) ∷ (lit "a", 3) ∷ (lit "a", 11) ∷ []

verdicts-burst : verdicts 10 2 empty_map burst ≡ true ∷ true ∷ false ∷ true ∷ []
unfolding verdicts rate_check same
verdicts-burst = refl

verdicts-logged_example : verdicts 10 2 empty_map burst ≡ logged_verdicts 10 2 [] burst
verdicts-logged_example =
    verdicts-logged 10 2 burst (omega arith, (omega arith, (omega arith, (omega arith, tt))))

admitted-le-limit_example :
    window_count 10 2 (lit "a") 11 (admitted_from 10 2 empty_map [] burst) ≤ 2
admitted-le-limit_example =
    admitted-le-limit 10 2 burst (lit "a") 11
      (omega arith, (omega arith, (omega arith, (omega arith, tt))))

answers-logged_example :
    answers
      (record { general = empty_map; auth_fail = empty_map })
      (fails (lit "a") 1 ∷ asks (lit "a") 2 ∷ [])
    ≡ logged_answers [] (fails (lit "a") 1 ∷ asks (lit "a") 2 ∷ [])
answers-logged_example =
    answers-logged (fails (lit "a") 1 ∷ asks (lit "a") 2 ∷ []) (omega arith, (omega arith, tt))
