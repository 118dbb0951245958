-- ===== src/Web/Connection/Slots.antt =====
-- src/web.rs `allgres_web_main`: the accept loop and its count of connection threads.
pub mod Tests
use allgres.Base.{ℕ, ◌+◌, ◌-◌, ◌≤◌, Bool, ◌≡◌, arith, leb, if◌then◌else◌, List, [], ◌∷◌}
use allgres.Web.Connection.{Reply, panicked}

abbrev pub max_web_threads : ℕ
max_web_threads = 64

-- `WEB_THREADS`, and what the operating system knows: the threads that run, and those that died of
-- a panic. Only `threads` is a variable of the program.
pub record Listener : Type 0 where
  pub threads : ℕ
  pub running : ℕ
  pub panics : ℕ

pub data Accepted : Type 0 where
  busy spawned spawn_failed : Accepted

-- One connection accepted; the Boolean says whether a thread can be spawned.
unfoldable pub accept : Listener → Bool → Listener × Accepted
accept l can_spawn =
    if leb max_web_threads l.threads
    then (l, busy)
    else if can_spawn
    then (record l { threads = l.threads + 1; running = l.running + 1 }, spawned)
    else (record l { threads = l.threads + 1 - 1 }, spawn_failed)

-- A thread ends: behind `handle_web_connection` it gives its slot back, which a panic skips.
unfoldable pub thread_ends : Listener → Reply → Listener
thread_ends l panicked = record l { running = l.running - 1; panics = l.panics + 1 }
thread_ends l _ = record l { threads = l.threads - 1; running = l.running - 1 }

-- What may happen: a connection comes, or a running thread ends.
pub data Event : Type 0 where
  arrives : Bool → Event
  ends : Reply → Event

unfoldable pub step : Listener → Event → Listener
step l (arrives can_spawn) = (accept l can_spawn).0
step l (ends reply) = if leb 1 l.running then thread_ends l reply else l

pub run : Listener → List Event → Listener
run l [] = l
run l (ev ∷ evs) = run (step l ev) evs

abbrev pub idle : Listener
idle = record { threads = 0; running = 0; panics = 0 }

-- The count is that of the threads that run and of those that panicked, and at most 64.
pub record IsCounted (l : Listener) : Type 0 where
  pub counted : l.threads ≡ l.running + l.panics
  pub bounded : l.threads ≤ max_web_threads

pub step-IsCounted : (l : Listener) (ev : Event) → IsCounted l → IsCounted (step l ev)
unfolding step accept thread_ends
step-IsCounted l (arrives can_spawn) c = ground arith
step-IsCounted l (ends panicked) c = ground arith
step-IsCounted l (ends _) c = ground arith

run_from-IsCounted : (l : Listener) (evs : List Event) → IsCounted l → IsCounted (run l evs)
unfolding run
run_from-IsCounted l [] c = c
run_from-IsCounted l (ev ∷ evs) c = run_from-IsCounted (step l ev) evs (step-IsCounted l ev c)

pub idle-IsCounted : IsCounted idle
idle-IsCounted = record { counted = omega arith; bounded = omega arith }

-- Whatever connections come and however their threads end, at most 64 threads run, and the count
-- is that of the running threads and of those that ended in a panic.
pub run-IsCounted : (evs : List Event) → IsCounted (run idle evs)
run-IsCounted evs = run_from-IsCounted idle evs idle-IsCounted

step-panics : (l : Listener) (ev : Event) → l.panics ≤ (step l ev).panics
unfolding step accept thread_ends
step-panics l (arrives can_spawn) = ground arith
step-panics l (ends panicked) = ground arith
step-panics l (ends _) = ground arith

run-panics : (l : Listener) (evs : List Event) → l.panics ≤ (run l evs).panics
unfolding run
run-panics l [] = omega arith
run-panics l (ev ∷ evs) = omega (arith, step-panics l ev, run-panics (step l ev) evs)

-- Once 64 connections have ended in a panic, every later connection is told that the server is
-- busy, for ever, though no thread runs.
pub accept_exhausted :
    (before after : List Event) (can_spawn : Bool)
    → max_web_threads ≤ (run idle before).panics
    → let l = run (run idle before) after in ((accept l can_spawn).1 ≡ busy) × (l.running ≡ 0)
unfolding accept
accept_exhausted before after can_spawn h = ground (
  arith,
  run_from-IsCounted (run idle before) after (run-IsCounted before),
  run-panics (run idle before) after,
)
