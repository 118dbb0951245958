-- ===== src/Web/Connection/Stream.antt =====
-- The event stream ends.
use allgres.Base.{ℕ, zero, suc, ◌+◌, ◌*◌, ◌^◌, ◌≤◌, ◌<◌, Option, none, some, arith}
use allgres.Web.World.{StreamRound}
use allgres.Web.Connection.{stream_loop, stream_fuel, sse_total}

-- 1 s, in nanoseconds: the sleep at the end of a round.
abbrev pub sse_interval : ℕ
sse_interval = 10 ^ 9

abbrev pub AtMost : ℕ → Option ℕ → Type 0
AtMost n none = ⊥
AtMost n (some k) = k ≤ n

stream_loop-AtMost :
    (fuel : ℕ) (rounds : ℕ → StreamRound) (start k : ℕ)
    → ((j : ℕ) → start + j * sse_interval ≤ (rounds j).clock)
    → k ≤ 30
    → 30 < fuel + k
    → AtMost 30 (stream_loop fuel rounds (start + sse_total) k)
unfolding stream_loop
stream_loop-AtMost zero rounds start k paced h f = absurd (omega arith)
stream_loop-AtMost (suc fuel) rounds start k paced h f =
    ground (arith, paced k, stream_loop-AtMost fuel rounds start (k + 1) paced)

-- The stream comes to an end after at most 30 snapshots, if each round sleeps for its second: the
-- fuel is never used up, however the client behaves.
pub stream_loop_total :
    (rounds : ℕ → StreamRound) (start : ℕ)
    → ((j : ℕ) → start + j * sse_interval ≤ (rounds j).clock)
    → AtMost 30 (stream_loop stream_fuel rounds (start + sse_total) 0)
stream_loop_total rounds start paced =
    stream_loop-AtMost stream_fuel rounds start 0 paced (omega arith) (omega arith)
