-- ===== src/Web/RateLimit/Window.antt =====
-- The sliding window against a log of all that was ever admitted.
use allgres.Base.{
  ℕ, ◌+◌, ◌≤◌, ◌<◌, Bool, ◌&&◌, ◌≡◌, refl, ap, ap₂, ltb→lt, ◌∙◌, sym, arith, ltb, leb,
  if◌then◌else◌, Key, empty_map, List, [], ◌∷◌, ◌++◌, length, keep, Bool-cases, inl, inr,
}
use allgres.Web.RateLimit.{Hits, is_recent, hits_of, rate_check}

-- The requests, an address and a time each, come in the order of time, none before `now`.
abbrev pub Ordered : {K : Type 0} → ℕ → List (K × ℕ) → Type 0
Ordered now [] = Unit
Ordered now ((ip, t) ∷ rs) = (now ≤ t) × Ordered t rs

pub keep-append :
    (p : ℕ → Bool) (xs : List ℕ) (t : ℕ)
    → length (keep p (xs ++ t ∷ [])) ≡ length (keep p xs) + (if p t then 1 else 0)
keep-append p [] t = ground arith
keep-append p (x ∷ xs) t = ground (arith, keep-append p xs t)

-- What is old for one time is old for each later one.
pub keep-keep_recent :
    (window now later : ℕ) (xs : List ℕ)
    → now ≤ later
    → keep (is_recent later window) (keep (is_recent now window) xs)
      ≡ keep (is_recent later window) xs
keep-keep_recent window now later [] h = refl
keep-keep_recent window now later (x ∷ xs) h =
    ground (arith, keep-keep_recent window now later xs h)

module _ {K : Type 0} ⦃e : Key K⦄ (window : ℕ) where
  -- How many requests of `ip` in the log are less than `window` old at `now`.
  unfoldable pub recent_count : K → ℕ → List (K × ℕ) → ℕ
  recent_count ip now [] = 0
  recent_count ip now ((j, t) ∷ log) =
      (if e.same j ip && is_recent now window t then 1 else 0) + recent_count ip now log

module _ {K : Type 0} ⦃e : Key K⦄ (window limit : ℕ) where
  -- The verdicts of the code on a sequence of requests.
  unfoldable pub verdicts : Hits K → List (K × ℕ) → List Bool
  verdicts m [] = []
  verdicts m ((ip, t) ∷ rs) =
      let (m', admitted) = rate_check m ip t window limit in admitted ∷ verdicts m' rs

  -- The same decided from the log of all requests admitted so far.
  pub logged_verdicts : List (K × ℕ) → List (K × ℕ) → List Bool
  logged_verdicts log [] = []
  logged_verdicts log ((ip, t) ∷ rs) =
      let admitted = ltb (recent_count window ip t log) limit in
      admitted ∷ logged_verdicts (if admitted then (ip, t) ∷ log else log) rs

  abbrev Agree : ℕ → Hits K → List (K × ℕ) → Type 0
  Agree now m log =
      (ip : K) (later : ℕ)
      → now ≤ later
      → length (keep (is_recent later window) (hits_of m ip)) ≡ recent_count window ip later log

  rate_check-verdict :
      (m : Hits K) (log : List (K × ℕ)) (ip : K) (now t : ℕ)
      → Agree now m log
      → now ≤ t
      → (rate_check m ip t window limit).1 ≡ ltb (recent_count window ip t log) limit
  unfolding rate_check
  rate_check-verdict m log ip now t h le = ground (arith, h ip t le)

  rate_check-Agree :
      (m : Hits K) (log : List (K × ℕ)) (ip : K) (now t : ℕ)
      → Agree now m log
      → now ≤ t
      → Agree t
          (rate_check m ip t window limit).0
          (if (rate_check m ip t window limit).1 then (ip, t) ∷ log else log)
  unfolding rate_check recent_count
  rate_check-Agree m log ip now t h le j later after = ground (
    arith,
    h j later (omega arith),
    e.same_iff ip j,
    keep-append (is_recent later window) (keep (is_recent t window) (hits_of m j)) t,
    keep-keep_recent window t later (hits_of m j) after,
  )

  verdicts_lem :
      (m : Hits K) (log : List (K × ℕ)) (now : ℕ) (rs : List (K × ℕ))
      → Agree now m log
      → Ordered now rs
      → verdicts m rs ≡ logged_verdicts log rs
  unfolding verdicts logged_verdicts
  verdicts_lem m log now [] h o = refl
  verdicts_lem m log now ((ip, t) ∷ rs) h o =
      let same = rate_check-verdict m log ip now t h o.0 in
      ap₂ ◌∷◌ same (
        verdicts_lem (rate_check m ip t window limit).0
          (if (rate_check m ip t window limit).1 then (ip, t) ∷ log else log) t rs
          (rate_check-Agree m log ip now t h o.0) o.1
        ∙ ap (λ b. logged_verdicts (if b then (ip, t) ∷ log else log) rs) same)

  -- From the empty map, the code admits a request exactly if fewer than `limit` of the requests
  -- admitted before it from the same address are less than `window` old, for any sequence of
  -- requests in the order of time.
  pub verdicts-logged :
      (rs : List (K × ℕ)) → Ordered 0 rs → verdicts empty_map rs ≡ logged_verdicts [] rs
  verdicts-logged rs o =
      verdicts_lem empty_map [] 0 rs (λ ip later h. unfold recent_count in refl) o

  -- The requests that the code admits, latest first, in front of those in the log.
  pub admitted_from : Hits K → List (K × ℕ) → List (K × ℕ) → List (K × ℕ)
  admitted_from m log [] = log
  admitted_from m log ((ip, t) ∷ rs) =
      let (m', admitted) = rate_check m ip t window limit in
      admitted_from m' (if admitted then (ip, t) ∷ log else log) rs

  -- How many requests of `ip` in the log lie in the window that ends at `end`.
  pub window_count : K → ℕ → List (K × ℕ) → ℕ
  window_count ip end [] = 0
  window_count ip end ((j, t) ∷ log) =
      (if e.same j ip && (leb t end && is_recent end window t) then 1 else 0)
      + window_count ip end log

  window-recent_count :
      (ip : K) (now end : ℕ) (log : List (K × ℕ))
      → now ≤ end
      → window_count ip end log ≤ recent_count window ip now log
  unfolding window_count recent_count
  window-recent_count ip now end [] h = omega arith
  window-recent_count ip now end ((j, t) ∷ log) h =
      ground (arith, window-recent_count ip now end log h)

  abbrev Capped : List (K × ℕ) → Type 0
  Capped log = (ip : K) (end : ℕ) → window_count ip end log ≤ limit

  push-Capped :
      (log : List (K × ℕ)) (ip : K) (t : ℕ)
      → Capped log
      → recent_count window ip t log < limit
      → Capped ((ip, t) ∷ log)
  unfolding window_count
  push-Capped log ip t h room j end =
      ground (arith, h j end, e.same_iff ip j, window-recent_count j t end log)

  admitted_from-Capped :
      (m : Hits K) (log : List (K × ℕ)) (now : ℕ) (rs : List (K × ℕ))
      → Agree now m log
      → Ordered now rs
      → Capped log
      → Capped (admitted_from m log rs)
  unfolding admitted_from
  admitted_from-Capped m log now [] h o c = c
  admitted_from-Capped m log now ((ip, t) ∷ rs) h o c =
      admitted_from-Capped (rate_check m ip t window limit).0
        (if (rate_check m ip t window limit).1 then (ip, t) ∷ log else log) t rs
        (rate_check-Agree m log ip now t h o.0) o.1
        (elim (Bool-cases (rate_check m ip t window limit).1) [
          | inl admitted ↦ rw admitted (
              push-Capped log ip t c
                (ltb→lt _ _ (sym (rate_check-verdict m log ip now t h o.0) ∙ admitted)))
          | inr refused ↦ rw refused c
        ])

  -- In no window of time are more than `limit` requests of one address admitted, for any sequence
  -- of requests in the order of time.
  pub admitted-le-limit :
      (rs : List (K × ℕ)) (ip : K) (end : ℕ)
      → Ordered 0 rs
      → window_count ip end (admitted_from empty_map [] rs) ≤ limit
  admitted-le-limit rs ip end o =
      admitted_from-Capped empty_map [] 0 rs (λ j later h. unfold recent_count in refl) o
        (λ j stop. unfold window_count in omega arith) ip end
