-- ===== src/Outbound/Wait/Deadline.antt =====
-- A wait ends, and a slice that runs out does not end it.
use allgres.Base.{
  ℕ, zero, suc, ◌+◌, ◌-◌, ◌≤◌, ◌<◌, Bool, true, false, Option, some, ◌≡◌, refl, arith, ◌==◌,
  if◌then◌else◌,
}
use allgres.Outbound.Wait.{
  World, Waited, aborted, answered, sliced, goes_on, wait_from, await_input,
}

-- A turn that goes on takes a millisecond at least.
abbrev pub Advances : World → Type 0
Advances w = (i : ℕ) → w.now i < w.now (suc i)

-- Not the time of a slice, nor `Ok(false)`, unless the deadline is over.
abbrev pub Surfaces : World → ℕ → Waited × ℕ → Type 0
Surfaces w deadline (aborted, i) = Unit
Surfaces w deadline (answered a, i) = goes_on a ≡ true → deadline ≤ w.now i

module _ (w : World) (timeout deadline : ℕ) where
  abbrev Ends : Option (Waited × ℕ) → Type 0
  Ends o = (r : Waited × ℕ) × ((o ≡ some r) × Surfaces w deadline r)

  one_turn :
      (i : ℕ) (later : Option (Waited × ℕ)) (c over on : Bool)
      → w.cancelled i ≡ c
      → ((deadline - w.now i) == 0) ≡ over
      → goes_on (w.inner i (sliced (deadline - w.now i))) ≡ on
      → (over ≡ false → Ends later)
      → Ends (
          if c
          then some (aborted, i)
          else if over
          then some (answered (w.inner i timeout), i)
          else if on
          then later
          else some (answered (w.inner i (sliced (deadline - w.now i))), i))
  one_turn i later true over on ec eo eg h = ((aborted, i), (refl, tt))
  one_turn i later false true on ec eo eg h =
      ((answered (w.inner i timeout), i), (refl, λ g. ground arith))
  one_turn i later false false true ec eo eg h = h refl
  one_turn i later false false false ec eo eg h =
      ((answered (w.inner i (sliced (deadline - w.now i))), i), (refl, λ g. ground (arith, g, eg)))

  wait_from-Ends :
      Advances w
      → (fuel i : ℕ) → deadline - w.now i < fuel
      → Ends (wait_from fuel w timeout deadline i)
  unfolding wait_from
  wait_from-Ends adv zero i l = absurd (omega (arith, l))
  wait_from-Ends adv (suc fuel) i l =
      one_turn i (wait_from fuel w timeout deadline (suc i)) _ _ _ refl refl refl
        (λ e. wait_from-Ends adv fuel (suc i) (ground (arith, e, l, adv i)))

-- A wait comes to an end, within a turn for each millisecond of the timeout and one more, if each
-- turn takes a millisecond; and neither a slice that runs out nor an answer without input is taken
-- for the result before the deadline.
pub await_input-ends :
    (w : World) (timeout : ℕ)
    → Advances w
    → w.started ≤ w.now 0
    → (r : Waited × ℕ) × ((await_input (timeout + 1) w timeout ≡ some r)
        × Surfaces w (w.started + timeout) r)
unfolding await_input
await_input-ends w timeout adv s =
    wait_from-Ends w timeout (w.started + timeout) adv (timeout + 1) 0 (omega (arith, s))
