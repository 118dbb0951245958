-- ===== src/Worker/Claims/Sanitized.antt =====
-- What is left of a response's body when it is handed to the database.
use allgres.Base.{true, all, ◌≡◌, sym, subst}
use allgres.Bytes.{Bytes}
use allgres.Utf8.{IsUtf8}
use allgres.Utf8.Truncate.{IsCut, truncate_utf8-IsCut}
use allgres.Utf8.WithoutNul.{
  nonzero, without_nul, without_nul-IsUtf8, all-nonzero-without_nul, all-nonzero-take,
}
use allgres.Worker.Claims.{sanitized, max_response_bytes}

-- A body that is UTF-8 is handed on without a NUL: it is the longest UTF-8 prefix, of at most
-- 200,000 bytes, of what is left of the body without its NULs.
pub sanitized_lem :
    (body : Bytes)
    → IsUtf8 body
    → (all nonzero (sanitized body) ≡ true)
      × IsCut (without_nul body) max_response_bytes (sanitized body)
unfolding sanitized
sanitized_lem body h =
    let cut : IsCut (without_nul body) max_response_bytes (sanitized body) =
      truncate_utf8-IsCut (without_nul body) max_response_bytes (without_nul-IsUtf8 body h) in
    (
      subst (λ t. all nonzero t ≡ true) (sym cut.prefix)
          (all-nonzero-take _ (without_nul body) (all-nonzero-without_nul body)),
      cut,
    )
