-- ===== src/Outbound/Wait/Tests.antt =====
-- A wait of a second that is cancelled after 200 ms.
use allgres.Base.{ℕ, zero, suc, ◌*◌, true, false, some, ◌≡◌, refl, arith, leb, le→leb}
use allgres.Outbound.Wait.{
  World, Waited, aborted, answered, timed_out, ready, wait_from, await_input, maybe_await_input,
}
use allgres.Outbound.Wait.Deadline.{Surfaces, await_input-ends}
use allgres.Outbound.Wait.Overrun.{KeepsTime, IsWithin, await_input-within}
use allgres.Outbound.Wait.Prompt.{IsPrompt, await_input-prompt}

-- Slices of 150 ms that all run out.
abbrev slow : World
slow = record {
  started = 0;
  cancelled = λ i. leb 200 (i * 150);
  now = λ i. i * 150;
  inner = λ i t. timed_out;
}

slow-await_input : await_input 10 slow 1000 ≡ some (aborted, 2)
unfolding await_input wait_from
slow-await_input = refl

never_cancelled :
    await_input 10 (record slow { cancelled = λ i. false }) 1000 ≡ some (answered timed_out, 7)
unfolding await_input wait_from
never_cancelled = refl

buffered : maybe_await_input 0 slow 1000 true ≡ some (answered ready, 0)
unfolding maybe_await_input
buffered = refl

await_input-ends_example :
    (r : Waited × ℕ) × ((await_input 1001 slow 1000 ≡ some r) × Surfaces slow 1000 r)
await_input-ends_example = await_input-ends slow 1000 (λ i. omega arith) (omega arith)

-- Two slices that run out, and then no time passes.
abbrev two_slices : ℕ → ℕ
two_slices zero = 0
two_slices (suc zero) = 150
two_slices (suc (suc i)) = 300

abbrev cancelled_soon : World
cancelled_soon = record {
  started = 0;
  cancelled = λ i. leb 200 (two_slices i);
  now = two_slices;
  inner = λ i t. timed_out;
}

cancelled_soon-await_input : await_input 10 cancelled_soon 1000 ≡ some (aborted, 2)
unfolding await_input wait_from
cancelled_soon-await_input = refl

cancelled_soon-KeepsTime : KeepsTime cancelled_soon 1000
cancelled_soon-KeepsTime zero = omega arith
cancelled_soon-KeepsTime (suc zero) = omega arith
cancelled_soon-KeepsTime (suc (suc i)) = omega arith

await_input-prompt_example : IsPrompt cancelled_soon 200 (aborted, 2)
await_input-prompt_example =
    await_input-prompt 10 cancelled_soon 1000 200 (aborted, 2) cancelled_soon-KeepsTime
      (λ i t. le→leb 200 (two_slices i) t) (omega arith) cancelled_soon-await_input

-- A transport that uses all its time: the wait of 300 ms takes 600.
abbrev late_clock : ℕ → ℕ
late_clock zero = 0
late_clock (suc zero) = 150
late_clock (suc (suc zero)) = 300
late_clock (suc (suc (suc i))) = 600

abbrev late : World
late = record { started = 0; cancelled = λ i. false; now = late_clock; inner = λ i t. timed_out }

late-await_input : await_input 10 late 300 ≡ some (answered timed_out, 2)
unfolding await_input wait_from
late-await_input = refl

late-KeepsTime : KeepsTime late 300
late-KeepsTime zero = omega arith
late-KeepsTime (suc zero) = omega arith
late-KeepsTime (suc (suc zero)) = omega arith
late-KeepsTime (suc (suc (suc i))) = omega arith

await_input-within_example : IsWithin late 300 (answered timed_out, 2)
await_input-within_example =
    await_input-within 10 late 300 (answered timed_out, 2) late-KeepsTime (omega arith)
      late-await_input

takes_twice : late.now 3 ≡ 2 * 300
takes_twice = refl
