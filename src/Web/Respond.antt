-- ===== src/Web/Respond.antt =====
-- src/web.rs: what is written back on a connection.
pub mod Decimal
pub mod Framed
use Prim.Native.Nat.{ℕ}
use Prim.Native.String.{String}
use allgres.Base.{suc, zero, ◌+◌, ◌/◌, ◌%◌, ltb, if◌then◌else◌, [], ◌∷◌, ◌++◌, length}
use allgres.Bytes.{Bytes, lit}

pub record Response : Type 0 where
  pub status : Bytes
  pub content_type : Bytes
  pub body : Bytes
  pub extra : Bytes

abbrev pub crlf : Bytes
crlf = b'\r' ∷ b'\n' ∷ []

abbrev pub line : String → Bytes
line s = lit s ++ crlf

pub security_headers : Bytes
security_headers =
    line "X-Content-Type-Options: nosniff"
    ++ (line "X-Frame-Options: DENY"
        ++ (line "Referrer-Policy: no-referrer"
            ++ line "Cross-Origin-Resource-Policy: same-origin"))

-- Decimal digits, in front of those behind them.
pub digits_onto : ℕ → ℕ → Bytes → Bytes
digits_onto zero n s = s
digits_onto (suc fuel) n s =
    let rest = digits_onto fuel (n / 10) ((b'0' + n % 10) ∷ s) in
    if ltb n 10 then (b'0' + n) ∷ s else rest

-- A number as `format!` prints it.
pub decimal : ℕ → Bytes
decimal n = digits_onto (suc n) n []

-- The bytes that `respond` writes.
pub respond : Response → Bytes
respond r =
    lit "HTTP/1.1 "
    ++ (r.status
        ++ (crlf
            ++ (lit "Content-Type: "
                ++ (r.content_type
                    ++ (crlf
                        ++ (lit "Content-Length: "
                            ++ (decimal (length r.body)
                                ++ (crlf
                                    ++ (line "Cache-Control: no-store"
                                        ++ (line "Connection: close"
                                            ++ (security_headers
                                                ++ (r.extra ++ (crlf ++ r.body)))))))))))))

abbrev pub json_response : String → Bytes → Response
json_response status body = record {
  status = lit status;
  content_type = lit "application/json";
  body = body;
  extra = [];
}

abbrev pub error_body : String → Bytes
error_body error = lit "{\"ok\":false,\"error\":\"" ++ (lit error ++ lit "\"}")

abbrev pub error_response : String → String → Response
error_response status error = json_response status (error_body error)
