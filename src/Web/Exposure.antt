-- ===== src/Web/Exposure.antt =====
-- src/web.rs `check_exposure`: an open address is refused without a token.
use allgres.Base.{
  Bool, true, false, not, ◌||◌, ◌&&◌, [], ◌∷◌, Option, none, some, ◌≡◌, ◌≢◌, ◌⊎◌, ◌↔◌, arith, ◌==◌,
  if◌then◌else◌, is_empty,
}
use allgres.Bytes.{Bytes, lit}
use allgres.Bytes.Compare.{same, same_iff, starts_with}

-- `&addr[..addr.rfind(':')?]`, all of it where there is no colon.
unfoldable pub has_colon : Bytes → Bool
has_colon [] = false
has_colon (c ∷ s) = c == b':' || has_colon s

unfoldable pub before_last_colon : Bytes → Bytes
before_last_colon [] = []
before_last_colon (c ∷ s) = if c == b':' && not (has_colon s) then [] else c ∷ before_last_colon s

unfoldable pub trim_start : Bytes → Bytes
trim_start [] = []
trim_start (c ∷ s) = if c == b'[' then trim_start s else c ∷ s

unfoldable pub trim_end : Bytes → Bytes
trim_end [] = []
trim_end (c ∷ s) = if c == b']' && is_empty (trim_end s) then [] else c ∷ trim_end s

unfoldable pub host_of : Bytes → Bytes
host_of addr = trim_end (trim_start (before_last_colon addr))

unfoldable pub is_loopback_addr : Bytes → Bool
is_loopback_addr addr =
    let host = host_of addr in
    same host (lit "127.0.0.1")
    || (same host (lit "::1") || (same host (lit "localhost") || starts_with (lit "127.") host))

pub data Exposure : Type 0 where
  accepted refused : Exposure

-- `insecure` is what ALLGRES_ALLOW_INSECURE_HTTP holds.
unfoldable pub check_exposure : Bytes → Bytes → Option Bytes → Exposure
check_exposure addr token insecure =
    if is_loopback_addr addr || not (is_empty token)
    then accepted
    else elim insecure [ none ↦ refused | some v ↦ if same v (lit "1") then accepted else refused ]

is_empty-nil : (s : Bytes) → (is_empty s ≡ true) ↔ (s ≡ [])
is_empty-nil [] = ground arith
is_empty-nil (c ∷ s) = ground arith

-- The web worker refuses to listen exactly if the address is not taken for a loopback one, no
-- token is set, and the operator has not opted in.
pub check_exposure-refused :
    (addr token : Bytes) (insecure : Option Bytes)
    → (check_exposure addr token insecure ≡ refused)
      ↔ ((is_loopback_addr addr ≡ false) × (token ≡ []) × (insecure ≢ some (lit "1")))
unfolding check_exposure
check_exposure-refused addr token none = ground (arith, is_empty-nil token)
check_exposure-refused addr token (some v) =
    ground (arith, is_empty-nil token, same_iff v (lit "1"))

-- The worker may listen exactly if the address is taken for a loopback one, a token is set, or the
-- operator has opted in.
pub check_exposure-accepted :
    (addr token : Bytes) (insecure : Option Bytes)
    → (check_exposure addr token insecure ≡ accepted)
      ↔ ((is_loopback_addr addr ≡ true) ⊎ ((token ≢ []) ⊎ (insecure ≡ some (lit "1"))))
unfolding check_exposure
check_exposure-accepted addr token none = ground (arith, is_empty-nil token)
check_exposure-accepted addr token (some v) =
    ground (arith, is_empty-nil token, same_iff v (lit "1"))
