-- ===== src/Outbound/Wait/Overrun.antt =====
-- How long a wait takes at most, and that it can be twice as long as it should.
use allgres.Base.{
  ℕ, zero, suc, ◌+◌, ◌*◌, ◌-◌, ◌≤◌, Bool, true, false, Option, some, ◌≡◌, refl, ap, subst, value_or,
  arith, ◌==◌, if◌then◌else◌,
}
use allgres.Outbound.Wait.{World, Waited, aborted, answered, sliced, wait_from, await_input}

-- What a turn gives the transport: a slice, and the whole timeout once the deadline is over.
abbrev pub given : ℕ → ℕ → ℕ
given timeout remaining = if remaining == 0 then timeout else sliced remaining

-- No turn takes longer than it gives.
abbrev pub KeepsTime : World → ℕ → Type 0
KeepsTime w timeout =
    (i : ℕ) → w.now (suc i) ≤ w.now i + given timeout (w.started + timeout - w.now i)

-- A wait that is given up ends by the deadline, another by twice the timeout.
abbrev pub IsWithin : World → ℕ → Waited × ℕ → Type 0
IsWithin w timeout (aborted, i) = w.now i ≤ w.started + timeout
IsWithin w timeout (answered a, i) = w.now (suc i) ≤ w.started + 2 * timeout

module _ (w : World) (timeout : ℕ) where
  found : (x r : Waited × ℕ) → some x ≡ some r → IsWithin w timeout x → IsWithin w timeout r
  found x r e p = subst (IsWithin w timeout) (ap (value_or x) e) p

  given-within :
      (now : ℕ)
      → now ≤ w.started + timeout
      → now + given timeout (w.started + timeout - now) ≤ w.started + 2 * timeout
  given-within now h = ground arith

  slice-within :
      (now : ℕ)
      → now ≤ w.started + timeout
      → ((w.started + timeout - now) == 0) ≡ false
      → now + given timeout (w.started + timeout - now) ≤ w.started + timeout
  slice-within now h k = ground arith

  one_turn :
      (i : ℕ) (later : Option (Waited × ℕ)) (r : Waited × ℕ) (a b : Waited) (c over on : Bool)
      → ((w.started + timeout - w.now i) == 0) ≡ over
      → w.now i ≤ w.started + timeout
      → ((o : Waited) → IsWithin w timeout (o, i))
      → (if c
          then some (aborted, i)
          else if over
          then some (a, i)
          else if on
          then later
          else some (b, i))
        ≡ some r
      → (over ≡ false → later ≡ some r → IsWithin w timeout r)
      → IsWithin w timeout r
  one_turn i later r a b true over on eo n any_end e h = found (aborted, i) r e n
  one_turn i later r a b false true on eo n any_end e h = found (a, i) r e (any_end a)
  one_turn i later r a b false false true eo n any_end e h = h refl e
  one_turn i later r a b false false false eo n any_end e h = found (b, i) r e (any_end b)

  wait_from-IsWithin :
      KeepsTime w timeout
      → (fuel i : ℕ) (r : Waited × ℕ) → w.now i ≤ w.started + timeout
      → wait_from fuel w timeout (w.started + timeout) i ≡ some r
      → IsWithin w timeout r
  unfolding wait_from
  wait_from-IsWithin keeps zero i r n e = ground (arith, e)
  wait_from-IsWithin keeps (suc fuel) i r n e =
      one_turn i (wait_from fuel w timeout (w.started + timeout) (suc i)) r _ _ _ _ _ refl n
        (at_end i n) e
        (λ k e'.
          wait_from-IsWithin keeps fuel (suc i) r
            (omega (arith, keeps i, slice-within (w.now i) n k)) e')
    where
      at_end : (i : ℕ) → w.now i ≤ w.started + timeout → (o : Waited) → IsWithin w timeout (o, i)
      at_end i n aborted = n
      at_end i n (answered a) = omega (arith, keeps i, given-within (w.now i) n)

-- A wait that is given up is given up by its deadline, and any other ends by twice its timeout: if
-- the transport never takes longer than it is given, since its last turn is given the whole timeout
-- again.
pub await_input-within :
    (fuel : ℕ) (w : World) (timeout : ℕ) (r : Waited × ℕ)
    → KeepsTime w timeout
    → w.now 0 ≤ w.started + timeout
    → await_input fuel w timeout ≡ some r
    → IsWithin w timeout r
unfolding await_input
await_input-within fuel w timeout r keeps n e = wait_from-IsWithin w timeout keeps fuel 0 r n e
