-- ===== src/Outbound/Wait.antt =====
-- src/outbound.rs `CancellableTransport`: the loops of `await_input` and `transmit_output`, which
-- wait for the client's own transport a slice at a time. Times are in milliseconds.
pub mod Deadline
pub mod Prompt
pub mod Overrun
pub mod Tests
use allgres.Base.{
  ℕ, zero, suc, ◌+◌, ◌-◌, Bool, true, false, Option, none, some, ◌==◌, if◌then◌else◌, min,
}
use allgres.Bytes.{Bytes}

abbrev pub cancel_poll_interval : ℕ
cancel_poll_interval = 150

-- What the client's own transport answers when it waits for at most some time: `Ok(true)` (or that
-- all is sent), `Ok(false)`, that the time is over, or another error.
pub data Answer : Type 0 where
  ready not_ready timed_out : Answer
  failed : Bytes → Answer

-- Of each turn of the loop: whether the flag is set, the clock, and the transport's answer to a
-- wait; and the clock when the deadline is set.
pub record World : Type 0 where
  pub started : ℕ
  pub cancelled : ℕ → Bool
  pub now : ℕ → ℕ
  pub inner : ℕ → ℕ → Answer

pub data Waited : Type 0 where
  aborted : Waited
  answered : Answer → Waited

-- `Self::sliced`
abbrev pub sliced : ℕ → ℕ
sliced after = min after cancel_poll_interval

-- Whether the loop goes on: the time of a slice is not the deadline.
abbrev pub goes_on : Answer → Bool
goes_on ready = false
goes_on not_ready = true
goes_on timed_out = true
goes_on (failed e) = false

-- From a turn on, to a deadline: what comes of it and at which turn, none if the fuel runs out. At
-- the deadline the transport has the last word, with the whole timeout.
pub wait_from : ℕ → World → ℕ → ℕ → ℕ → Option (Waited × ℕ)
wait_from zero w timeout deadline i = none
wait_from (suc fuel) w timeout deadline i =
    let later = wait_from fuel w timeout deadline (suc i) in
    if w.cancelled i
    then some (aborted, i)
    else if (deadline - w.now i) == 0
    then some (answered (w.inner i timeout), i)
    else if goes_on (w.inner i (sliced (deadline - w.now i)))
    then later
    else some (answered (w.inner i (sliced (deadline - w.now i))), i)

-- `await_input`
pub await_input : ℕ → World → ℕ → Option (Waited × ℕ)
await_input fuel w timeout = wait_from fuel w timeout (w.started + timeout) 0

-- `maybe_await_input`: nothing is waited for when the buffer has input.
pub maybe_await_input : ℕ → World → ℕ → Bool → Option (Waited × ℕ)
maybe_await_input fuel w timeout can_use_input =
    if can_use_input then some (answered ready, 0) else await_input fuel w timeout

-- `transmit_output`: the same loop; `ready` is that all is sent, and no answer is `not_ready`.
pub transmit_output : ℕ → World → ℕ → Option (Waited × ℕ)
transmit_output = await_input
