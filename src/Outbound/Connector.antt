-- ===== src/Outbound/Connector.antt =====
-- src/outbound.rs `CancellableConnector` and `CancellableTransport`: every transport that the client
-- connects carries the flag of its call. The client's own connector is an argument.
use allgres.Base.{ℕ, Option, none, some}
use allgres.Bytes.{Bytes}

-- `Result<Option<T>, ureq::Error>`
pub data Connected {ℓ} (T : Type ℓ) : Type ℓ where
  connected : Option T → Connected T
  failed : Bytes → Connected T

-- The place of the flag, as in Outbound/Flags.
pub record CancellableTransport {ℓ} (Inner : Type ℓ) : Type ℓ where
  pub inner : Inner
  pub cancel : ℕ

pub connect {ℓ} :
    {Details Inner : Type ℓ}
    → ℕ
    → (Details → Connected Inner)
    → Details
    → Connected (CancellableTransport Inner)
connect cancel inner details = elim (inner details) [
  | failed e ↦ failed e
  | connected none ↦ connected none
  | connected (some t) ↦ connected (some (record { inner = t; cancel = cancel }))
]
