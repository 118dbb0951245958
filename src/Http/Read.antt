-- ===== src/Http/Read.antt =====
-- The read loop ends, and never hands on more than the limit.
use allgres.Base.{
  ℕ, zero, suc, ◌+◌, ◌≤◌, ◌<◌, false, [], ◌∷◌, ◌++◌, Option, none, ◌≡◌, refl, arith, length,
  length-append, inl, inr, ◌⊎◌,
}
use allgres.Bytes.{Bytes}
use allgres.Http.{
  ReadResult, failed, got, Connection, Reading, out_of_fuel, refused, complete, is_nil, find_end,
  max_request_bytes, read_loop, read_fuel, request_deadline,
}

-- What the loop may return: nothing, or at most `max_request_bytes` bytes.
abbrev pub Bounded : Reading → Type 0
Bounded out_of_fuel = ⊥
Bounded refused = Unit
Bounded (complete bytes) = length bytes ≤ max_request_bytes

is_nil-length : (chunk : Bytes) → is_nil chunk ≡ false → 0 < length chunk
unfolding is_nil
is_nil-length [] h = ground arith
is_nil-length (c ∷ s) h = omega arith

result-cases : (r : ReadResult) → (r ≡ failed) ⊎ ((chunk : Bytes) × (r ≡ got chunk))
result-cases failed = inl refl
result-cases (got chunk) = inr (chunk, refl)

-- With fuel for each byte that may still come, the loop returns, and within its limit.
read_loop-Bounded :
    (fuel : ℕ) (conn : Connection) (deadline k : ℕ) (bytes : Bytes) (end : Option (ℕ × ℕ))
    → length bytes ≤ max_request_bytes
    → max_request_bytes + 1 < fuel + length bytes
    → Bounded (read_loop fuel conn deadline k bytes end)
unfolding read_loop
read_loop-Bounded zero conn deadline k bytes end h f = absurd (omega arith)
read_loop-Bounded (suc fuel) conn deadline k bytes end h f = elim (result-cases (conn k).result) [
  | inl e ↦ rw (e, read_loop) (ground arith)
  | inr (chunk, e) ↦
      rw (e, read_loop)
        (ground (
          arith,
          is_nil-length chunk,
          length-append bytes chunk,
          read_loop-Bounded fuel conn deadline (k + 1) (bytes ++ chunk)
              (find_end (bytes ++ chunk) end),
        ))
]

-- Reading a request always comes to an end: the loop refuses the connection, or it hands on at
-- most 2^20 bytes. The fuel, one round for each byte and two more, is never used up.
pub read_loop_total :
    (conn : Connection) (start : ℕ)
    → Bounded (read_loop read_fuel conn (start + request_deadline) 0 [] none)
read_loop_total conn start =
    read_loop-Bounded read_fuel conn (start + request_deadline) 0 [] none (omega arith)
      (omega arith)
