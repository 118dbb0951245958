-- ===== src/Web/Main/Laws.antt =====
-- The web worker listens where the operator allows it, and keeps count of its threads.
use allgres.Base.{
  Bool, true, false, List, [], ◌∷◌, some, ◌≡◌, ◌≢◌, ◌⊎◌, ◌↔◌, inl, inr, refl, arith, if◌then◌else◌,
  Bool-cases,
}
use allgres.Bytes.{Bytes, lit}
use allgres.Config.{Environment, configured_http_addr}
use allgres.Web.Exposure.{
  Exposure, accepted, refused, check_exposure, is_loopback_addr, check_exposure-accepted,
}
use allgres.Web.Connection.{Reply}
use allgres.Web.Connection.Slots.{
  Listener, IsCounted, idle, step, arrives, ends, step-IsCounted, idle-IsCounted,
}
use allgres.Web.Main.{
  Incoming, connection, would_block, accept_failed, threads_end, accept_all, accept_loop, Served,
  listen, allgres_web_main, web_config, unless_exposed, serving, without_service, exposed, Ending,
  bind_failed, nonblocking_failed,
}

threads_end-IsCounted :
    (l : Listener) (replies : List Reply) → IsCounted l → IsCounted (threads_end l replies)
unfolding threads_end
threads_end-IsCounted l [] c = c
threads_end-IsCounted l (reply ∷ replies) c =
    threads_end-IsCounted (step l (ends reply)) replies (step-IsCounted l (ends reply) c)

accept_all-IsCounted :
    (l : Listener) (incoming : List Incoming) → IsCounted l → IsCounted (accept_all l incoming).0
unfolding accept_all step
accept_all-IsCounted l [] c = c
accept_all-IsCounted l (would_block ∷ later) c = c
accept_all-IsCounted l (accept_failed ∷ later) c = c
accept_all-IsCounted l (connection replies can_spawn ∷ later) c =
    accept_all-IsCounted (step (threads_end l replies) (arrives can_spawn)) later (
      step-IsCounted (threads_end l replies) (arrives can_spawn)
        (threads_end-IsCounted l replies c))

accept_loop-IsCounted :
    (l : Listener) (turns : List (List Incoming)) → IsCounted l → IsCounted (accept_loop l turns).0
unfolding accept_loop
accept_loop-IsCounted l [] c = c
accept_loop-IsCounted l (incoming ∷ later) c =
    accept_loop-IsCounted (accept_all l incoming).0 later (accept_all-IsCounted l incoming c)

-- The operator's leave to listen: a loopback address, a token, or the word that it is intended.
abbrev pub MayListen : Environment → Type 0
MayListen env =
    (is_loopback_addr (configured_http_addr env) ≡ true)
    ⊎ (((web_config env).token ≢ []) ⊎ (env (lit "ALLGRES_ALLOW_INSECURE_HTTP") ≡ some (lit "1")))

-- What the worker has done.
pub record IsServed (env : Environment) (can_bind : Bytes → Bool) (served : Served) : Type 0 where
  pub listens :
      (served.bound ≡ configured_http_addr env ∷ [])
      ↔ (MayListen env × (can_bind (configured_http_addr env) ≡ true))
  pub otherwise_nothing :
      served.bound ≢ configured_http_addr env ∷ [] → (served.bound ≡ []) × (served.answers ≡ [])
  pub counted : IsCounted served.listener

nil-cons : (a : Bytes) → [] ≢ a ∷ []
nil-cons a = ground arith

-- Where the address is bound, and where it is not.
bound-IsServed :
    (env : Environment) (can_bind : Bytes → Bool) (served : Served)
    → MayListen env
    → can_bind (configured_http_addr env) ≡ true
    → served.bound ≡ configured_http_addr env ∷ []
    → IsCounted served.listener
    → IsServed env can_bind served
bound-IsServed env can_bind served leave can bound counted = record {
  listens = (λ _. (leave, can), λ _. bound);
  otherwise_nothing = λ not_bound. absurd (not_bound bound);
  counted = counted;
}

unbound-IsServed :
    (env : Environment) (can_bind : Bytes → Bool) (ending : Ending)
    → ¬ (MayListen env × (can_bind (configured_http_addr env) ≡ true))
    → IsServed env can_bind (without_service [] ending)
unbound-IsServed env can_bind ending cannot = record {
  listens = (λ e. absurd (nil-cons _ e), λ can. absurd (cannot can));
  otherwise_nothing = λ _. (refl, refl);
  counted = idle-IsCounted;
}

never_both : {b : Bool} → b ≡ true → b ≡ false → ⊥
never_both h k = ground arith

listen-IsServed :
    (env : Environment) (can_bind : Bytes → Bool) (can_unblock : Bool)
    (turns : List (List Incoming))
    → MayListen env
    → IsServed env can_bind (listen (configured_http_addr env) can_bind can_unblock turns)
unfolding listen
listen-IsServed env can_bind can_unblock turns leave =
    elim (Bool-cases (can_bind (configured_http_addr env))) [
      | inl e ↦ rw e (by_unblock can_unblock e)
      | inr e ↦ rw e (unbound-IsServed env can_bind bind_failed (λ may. never_both may.1 e))
    ]
  where
    by_unblock :
        (u : Bool)
        → can_bind (configured_http_addr env) ≡ true
        → IsServed env can_bind (
            if u
            then serving (configured_http_addr env) (accept_loop idle turns)
            else without_service (configured_http_addr env ∷ []) nonblocking_failed)
    by_unblock true e =
        bound-IsServed env can_bind (serving (configured_http_addr env) (accept_loop idle turns))
          leave e refl (accept_loop-IsCounted idle turns idle-IsCounted)
    by_unblock false e =
        bound-IsServed env can_bind
          (without_service (configured_http_addr env ∷ []) nonblocking_failed) leave e refl
          idle-IsCounted

-- Whatever connections come, the web worker binds exactly the configured address, exactly if that
-- can be bound and it has leave: the address is taken for a loopback one, a token is set, or the
-- operator has opted in. Otherwise it binds nothing and serves nobody. At its end at most 64 of its
-- threads run, and their count is that of the threads that run and of those that ended in a panic.
pub allgres_web_main-IsServed :
    (env : Environment) (can_bind : Bytes → Bool) (can_unblock : Bool)
    (turns : List (List Incoming))
    → IsServed env can_bind (allgres_web_main env can_bind can_unblock turns)
unfolding allgres_web_main
allgres_web_main-IsServed env can_bind can_unblock turns = by_exposure _ refl
  where
    leave_iff :
        (check_exposure
            (configured_http_addr env)
            (web_config env).token
            (env (lit "ALLGRES_ALLOW_INSECURE_HTTP"))
          ≡ accepted)
        ↔ MayListen env
    leave_iff =
        check_exposure-accepted (configured_http_addr env) (web_config env).token
          (env (lit "ALLGRES_ALLOW_INSECURE_HTTP"))

    by_exposure :
        (x : Exposure)
        → check_exposure
            (configured_http_addr env)
            (web_config env).token
            (env (lit "ALLGRES_ALLOW_INSECURE_HTTP"))
          ≡ x
        → IsServed env can_bind
            (unless_exposed x (listen (configured_http_addr env) can_bind can_unblock turns))
    by_exposure accepted e = listen-IsServed env can_bind can_unblock turns (leave_iff.0 e)
    by_exposure refused e =
        unbound-IsServed env can_bind exposed (λ may. ground (arith, e, leave_iff.1 may.0))
