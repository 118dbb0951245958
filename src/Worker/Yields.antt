-- ===== src/Worker/Yields.antt =====
-- What a part of the code returns, where it returns, whatever the session is.
use allgres.Base.{Bool, true, false, if◌then◌else◌}
use allgres.Worker.Session.{Session, Outcome, returns, unwinds, Exec, ◌>>=◌, next, pure}

abbrev pub Good : {A : Type 0} → (A → Type 0) → Session × Outcome A → Type 0
Good Q (s, returns a) = Q a
Good Q (s, unwinds e) = Unit

pub record Yields {A : Type 0} (m : Exec A) (Q : A → Type 0) : Type 0 where
  pub yields : (s : Session) → Good Q (m s)

pub bind_Yields :
    {A B : Type 0} {R : A → Type 0} {Q : B → Type 0} {m : Exec A} {k : A → Exec B}
    → Yields m R
    → ((a : A) → R a → Yields (k a) Q)
    → Yields (m >>= k) Q
bind_Yields {R = R} {Q = Q} {m = m} {k = k} h g = record { yields = λ s. after (m s) (h.yields s) }
  where
    after : (o : Session × Outcome _) → Good R o → Good Q (next k o)
    after (s, returns a) r = (g a r).yields s
    after (s, unwinds e) r = tt

pub pure_Yields : {A : Type 0} {Q : A → Type 0} (a : A) → Q a → Yields (pure a) Q
pure_Yields a q = record { yields = λ s. q }

pub anything : {A : Type 0} (m : Exec A) → Yields m (λ _. Unit)
anything {A = A} m = record { yields = λ s. trivial (m s) }
  where
    trivial : (o : Session × Outcome A) → Good (λ _. Unit) o
    trivial (s, returns a) = tt
    trivial (s, unwinds e) = tt

pub if_Yields :
    {A : Type 0} {Q : A → Type 0} {m n : Exec A} (b : Bool)
    → Yields m Q
    → Yields n Q
    → Yields (if b then m else n) Q
if_Yields true h k = h
if_Yields false h k = k

pub weaken_Yields :
    {A : Type 0} {Q R : A → Type 0} {m : Exec A} → Yields m Q → ((a : A) → Q a → R a) → Yields m R
weaken_Yields {A = A} {Q = Q} {R = R} {m = m} h f = record {
  yields = λ s. after (m s) (h.yields s);
}
  where
    after : (o : Session × Outcome A) → Good Q o → Good R o
    after (s, returns a) q = f a q
    after (s, unwinds e) q = tt
