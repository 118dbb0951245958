-- ===== src/Web/Connection/Slots/Tests.antt =====
-- Runs of the listener.
use allgres.Base.{ℕ, zero, suc, ◌≤◌, true, List, [], ◌∷◌, ◌≡◌, arith}
use allgres.Web.Connection.{panicked}
use allgres.Web.Connection.Slots.{
  Event, arrives, ends, idle, run, step, accept, thread_ends, busy, max_web_threads,
  accept_exhausted,
}

-- Connections that all panic.
abbrev panicking : ℕ → List Event
panicking zero = []
panicking (suc n) = arrives true ∷ ends panicked ∷ panicking n

sixty_four_panics : max_web_threads ≤ (run idle (panicking 64)).panics
unfolding run step accept thread_ends
sixty_four_panics = omega arith

accept_exhausted_example :
    let l = run (run idle (panicking 64)) (arrives true ∷ []) in
    ((accept l true).1 ≡ busy) × (l.running ≡ 0)
accept_exhausted_example =
    accept_exhausted (panicking 64) (arrives true ∷ []) true sixty_four_panics
