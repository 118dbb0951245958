-- ===== src/Outbound/Wait/Prompt.antt =====
-- A cancellation is noticed soon.
use mathlib.Core.Bool.{true≢false}
use allgres.Base.{
  ℕ, zero, suc, ◌+◌, ◌-◌, ◌≤◌, Bool, true, false, Option, some, ◌≡◌, refl, sym, ap, ◌∙◌, subst,
  value_or, arith, ◌==◌, if◌then◌else◌,
}
use allgres.Outbound.Wait.{World, Waited, aborted, cancel_poll_interval, wait_from, await_input}
use allgres.Outbound.Wait.Overrun.{given, KeepsTime}

-- The flag is set from some time on.
abbrev pub CancelledFrom : World → ℕ → Type 0
CancelledFrom w time = (i : ℕ) → time ≤ w.now i → w.cancelled i ≡ true

-- The last turn begins within a slice of that time, and if it does not begin before, the wait is
-- given up.
abbrev pub IsPrompt : World → ℕ → Waited × ℕ → Type 0
IsPrompt w time (o, i) = (w.now i ≤ time + cancel_poll_interval) × (time ≤ w.now i → o ≡ aborted)

-- What a turn before the deadline gives the transport is a slice.
given-le-slice :
    (timeout remaining : ℕ)
    → (remaining == 0) ≡ false
    → given timeout remaining ≤ cancel_poll_interval
given-le-slice timeout remaining h = ground arith

module _ (w : World) (timeout time : ℕ) where
  found : (x r : Waited × ℕ) → some x ≡ some r → IsPrompt w time x → IsPrompt w time r
  found x r e p = subst (IsPrompt w time) (ap (value_or x) e) p

  one_turn :
      (i : ℕ) (later : Option (Waited × ℕ)) (r : Waited × ℕ) (a b : Waited) (c over on : Bool)
      → w.cancelled i ≡ c
      → ((w.started + timeout - w.now i) == 0) ≡ over
      → CancelledFrom w time
      → w.now i ≤ time + cancel_poll_interval
      → (if c
          then some (aborted, i)
          else if over
          then some (a, i)
          else if on
          then later
          else some (b, i))
        ≡ some r
      → (c ≡ false → over ≡ false → later ≡ some r → IsPrompt w time r)
      → IsPrompt w time r
  one_turn i later r a b true over on ec eo from n e h = found (aborted, i) r e (n, λ _. refl)
  one_turn i later r a b false true on ec eo from n e h =
      found _ r e (n, λ t. absurd (true≢false (sym (from i t) ∙ ec)))
  one_turn i later r a b false false true ec eo from n e h = h refl refl e
  one_turn i later r a b false false false ec eo from n e h =
      found _ r e (n, λ t. absurd (true≢false (sym (from i t) ∙ ec)))

  -- A turn that is not given up begins before that time, and the next one within a slice of it.
  next_turn :
      KeepsTime w timeout
      → CancelledFrom w time
      → (i : ℕ) → w.cancelled i ≡ false
      → ((w.started + timeout - w.now i) == 0) ≡ false
      → w.now (suc i) ≤ time + cancel_poll_interval
  next_turn keeps from i c over =
      ground
        (arith, c, keeps i, from i, given-le-slice timeout (w.started + timeout - w.now i) over)

  wait_from-IsPrompt :
      KeepsTime w timeout
      → CancelledFrom w time
      → (fuel i : ℕ) (r : Waited × ℕ) → w.now i ≤ time + cancel_poll_interval
      → wait_from fuel w timeout (w.started + timeout) i ≡ some r
      → IsPrompt w time r
  unfolding wait_from
  wait_from-IsPrompt keeps from zero i r n e = ground (arith, e)
  wait_from-IsPrompt keeps from (suc fuel) i r n e =
      one_turn i (wait_from fuel w timeout (w.started + timeout) (suc i)) r _ _ _ _ _ refl refl from
        n e
        (λ c over e'.
          wait_from-IsPrompt keeps from fuel (suc i) r (next_turn keeps from i c over) e')

-- A wait that is cancelled is given up soon, since it waits a slice at a time: if the transport
-- never takes longer than a turn gives it, and the flag is set from some time on, not before the
-- wait's first turn, then the last turn begins within 150 ms of that time; and the wait is given up,
-- unless that turn begins before.
pub await_input-prompt :
    (fuel : ℕ) (w : World) (timeout time : ℕ) (r : Waited × ℕ)
    → KeepsTime w timeout
    → CancelledFrom w time
    → w.now 0 ≤ time
    → await_input fuel w timeout ≡ some r
    → IsPrompt w time r
unfolding await_input
await_input-prompt fuel w timeout time r keeps from s e =
    wait_from-IsPrompt w timeout time keeps from fuel 0 r (omega (arith, s)) e
