-- ===== src/Worker/Main.antt =====
-- src/runtime_worker.rs `allgres_runtime_main`: the runtime worker from its start to the signal that
-- stops it, between the files of its socket and the database.
use allgres.Base.{
  ℕ, Bool, true, false, Option, List, ◌≡◌, ◌≢◌, ◌⊎◌, inl, inr, refl, ap, arith, if◌then◌else◌,
}
use allgres.Bytes.{Bytes}
use allgres.Json.{Json}
use allgres.Config.{Files, Io, ok, error, System, socket, absent, remove_old, bind_rpc_socket}
use allgres.Config.Private.{is_private, bind_rpc_socket-IsKept}
use allgres.Worker.Session.{Database, Session, Outcome, returns, unwinds}
use allgres.Worker.Policy.{Monitored, unchanged}
use allgres.Worker.Runtime.{Runtime, Round, start, run}
use allgres.Worker.Runtime.Guarded.{run-Monitored}

-- How the worker ends: without a socket, with one that blocks, by an ERROR, or as it was told to.
pub data Ending : Type 0 where
  bind_failed nonblocking_failed : Ending
  died : Bytes → Ending
  stopped : Runtime → Ending

pub record Ended : Type 0 where
  pub files : Files
  pub session : Session
  pub ending : Ending

-- Behind the loop the socket is removed, if that succeeds; an ERROR ends the process before.
abbrev shut : System → Files → Session × Outcome Runtime → Ended
shut sys f (s, returns r) = record { files = remove_old sys f; session = s; ending = stopped r }
shut sys f (s, unwinds e) = record { files = f; session = s; ending = died e }

module _ (db : Database) (disabled : Bool) (print : Json → Bytes) (parses : Bytes → Bool)
    (to_i64 : Bytes → Option ℕ) (sys : System) (can_unblock : Bool) (rounds : List Round)
    (now : ℕ) where
  -- The loop, if there is a socket that does not block.
  abbrev serve_on : Files × Io → Session → Ended
  serve_on (f, error) s = record { files = f; session = s; ending = bind_failed }
  serve_on (f, ok) s =
      if can_unblock
      then shut sys f (run db disabled print parses to_i64 rounds (start now) s)
      else record { files = f; session = s; ending = nonblocking_failed }

  pub allgres_runtime_main : Files → Session → Ended
  allgres_runtime_main f s = serve_on (bind_rpc_socket sys f) s

-- What holds of the worker's end: what it has sent keeps to the policy; unless it has sent nothing,
-- its socket stood in a private directory, for the owner only; and where it was told to stop, the
-- socket is gone, if it could be removed.
pub record IsEnded (db : Database) (sys : System) (f : Files) (s : Session) (e : Ended)
    : Type 0 where
  pub monitored : Monitored db s.log e.session.log
  pub sheltered :
      (e.session ≡ s)
      ⊎ ((is_private (bind_rpc_socket sys f).0.dir ≡ true)
          × ((bind_rpc_socket sys f).0.sock ≡ socket 384))
  pub removed : (r : Runtime) → e.ending ≡ stopped r → sys.can_remove ≡ true → e.files.sock ≡ absent

shut-IsEnded :
    (db : Database) (sys : System) (f f' : Files) (s : Session) (o : Session × Outcome Runtime)
    → Monitored db s.log o.0.log
    → is_private (bind_rpc_socket sys f).0.dir ≡ true
    → (bind_rpc_socket sys f).0.sock ≡ socket 384
    → IsEnded db sys f s (shut sys f' o)
shut-IsEnded db sys f f' s (s', returns r) m d k = record {
  monitored = m;
  sheltered = inr (d, k);
  removed = λ r e can. ground arith;
}
shut-IsEnded db sys f f' s (s', unwinds x) m d k = record {
  monitored = m;
  sheltered = inr (d, k);
  removed = λ r e can. ground arith;
}

unserved-IsEnded :
    (db : Database) (sys : System) (f f' : Files) (s : Session) (ending : Ending)
    → ((r : Runtime) → ending ≢ stopped r)
    → IsEnded db sys f s (record { files = f'; session = s; ending = ending })
unserved-IsEnded db sys f f' s ending h = record {
  monitored = unchanged;
  sheltered = inl refl;
  removed = λ r e can. absurd (h r e);
}

-- From its start to its end, whatever comes and whatever fails, and unless the drop of privileges is
-- switched off, the runtime worker sends the database only what its policy allows; it sends nothing
-- at all unless its socket stands, for the owner only, in a directory that gives nothing to others;
-- and behind a signal to stop the socket is gone, if it can be removed.
pub allgres_runtime_main-IsEnded :
    (db : Database) (print : Json → Bytes) (parses : Bytes → Bool) (to_i64 : Bytes → Option ℕ)
    (sys : System) (can_unblock : Bool) (rounds : List Round) (now : ℕ) (f : Files) (s : Session)
    → IsEnded db sys f s
        (allgres_runtime_main db false print parses to_i64 sys can_unblock rounds now f s)
unfolding allgres_runtime_main
allgres_runtime_main-IsEnded db print parses to_i64 sys can_unblock rounds now f s =
    by_socket (bind_rpc_socket sys f) refl
  where
    by_unblock :
        (u : Bool) (f' : Files)
        → is_private (bind_rpc_socket sys f).0.dir ≡ true
        → (bind_rpc_socket sys f).0.sock ≡ socket 384
        → IsEnded db sys f s (
            if u
            then shut sys f' (run db false print parses to_i64 rounds (start now) s)
            else record { files = f'; session = s; ending = nonblocking_failed })
    by_unblock true f' d k =
        shut-IsEnded db sys f f' s (run db false print parses to_i64 rounds (start now) s)
          (run-Monitored db print parses to_i64 rounds now s) d k
    by_unblock false f' d k = unserved-IsEnded db sys f f' s nonblocking_failed (λ r. ground arith)

    by_socket :
        (o : Files × Io)
        → bind_rpc_socket sys f ≡ o
        → IsEnded db sys f s (serve_on db false print parses to_i64 sys can_unblock rounds now o s)
    by_socket (f', error) e = unserved-IsEnded db sys f f' s bind_failed (λ r. ground arith)
    by_socket (f', ok) e =
        let kept = bind_rpc_socket-IsKept sys f in
        by_unblock can_unblock f' (kept.private (ap (λ o. o.1) e))
          (kept.restricted (ap (λ o. o.1) e))
