-- ===== src/Web/Nonce.antt =====
-- src/web.rs `nonce`: the random text that becomes a ticket.
pub mod Laws
pub mod Tests
use allgres.Base.{
  ℕ, zero, suc, ◌+◌, ◌*◌, ◌/◌, ◌%◌, ◌^◌, Option, none, some, [], ◌∷◌, ltb, if◌then◌else◌,
}
use Prim.Native.Nat.{bit_xor}
use allgres.Bytes.{Bytes}

-- What is drawn: the bytes of /dev/urandom, if they can be read, and otherwise the clock in
-- nanoseconds, the process and the address of the buffer.
pub record Draw : Type 0 where
  pub urandom : Option Bytes
  pub nanos : ℕ
  pub pid : ℕ
  pub address : ℕ

-- `u128::to_le_bytes`, of so many bytes.
unfoldable pub le_bytes : ℕ → ℕ → Bytes
le_bytes zero n = []
le_bytes (suc k) n = n % 256 ∷ le_bytes k (n / 256)

-- `nanos ^ (pid << 64) ^ address`, where the shift drops what leaves the 128 bits.
unfoldable pub mix : Draw → ℕ
mix d = bit_xor (bit_xor d.nanos ((d.pid * 2 ^ 64) % 2 ^ 128)) d.address

unfoldable pub drawn : Draw → Bytes
drawn d = elim d.urandom [ some buf ↦ buf | none ↦ le_bytes 16 (mix d) ]

-- A digit of `{b:02x}`.
abbrev pub hex_of : ℕ → ℕ
hex_of n = if ltb n 10 then b'0' + n else 87 + n

unfoldable pub hex : Bytes → Bytes
hex [] = []
hex (b ∷ s) = hex_of (b / 16) ∷ hex_of (b % 16) ∷ hex s

unfoldable pub nonce : Draw → Bytes
nonce d = hex (drawn d)
