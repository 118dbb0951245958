-- ===== src/Web/Connection/Plain.antt =====
-- The responses of the web worker are plain.
use Prim.Native.String.{String}
use allgres.Base.{
  ◌<◌, within, true, false, none, some, [], ◌∷◌, ◌++◌, ◌≡◌, refl, arith, if◌then◌else◌, all-append,
  append_assoc, length,
}
use allgres.Bytes.{Bytes, lit}
use allgres.Json.{Json, get_bool}
use allgres.Http.{HttpRequest}
use allgres.Web.Mock.{mock_token}
use allgres.Web.Respond.{Response, crlf, json_response}
use allgres.Web.Respond.Framed.{printable, IsPlain}
use allgres.Web.World.{World}
use allgres.Web.Connection.{ok_json, page, with_extra, api_response, mock_oauth}

pub json_IsPlain :
    (status : String) (body : Bytes)
    → printable (lit status) ≡ true
    → IsPlain (json_response status body)
json_IsPlain status body h = record {
  extra_lines = [];
  status = h;
  content_type = refl;
  ended_extra = refl;
  printable_extra = tt;
}

-- One further header.
pub with_line :
    {r : Response} (l : Bytes)
    → IsPlain r
    → 0 < length l
    → printable l ≡ true
    → IsPlain (with_extra r (l ++ crlf))
with_line l p n h = record {
  extra_lines = l ∷ [];
  status = p.status;
  content_type = p.content_type;
  ended_extra = append_assoc l crlf crlf;
  printable_extra = (n, h, tt);
}

module _ (w : World) (plain_nonce : printable w.nonce ≡ true) where
  csp_start : Bytes
  csp_start = lit "Content-Security-Policy: default-src 'none'; script-src 'nonce-"

  csp_middle : Bytes
  csp_middle = lit "'; style-src 'nonce-"

  csp_end : Bytes
  csp_end =
      lit
        "'; connect-src 'self'; img-src 'self' data:; base-uri 'none'; form-action 'none'; frame-ancestors 'none'"

  pub page-IsPlain : IsPlain (page w)
  unfolding page csp_start csp_middle csp_end
  page-IsPlain = record {
    extra_lines = (csp_start ++ (w.nonce ++ (csp_middle ++ (w.nonce ++ csp_end)))) ∷ [];
    status = refl;
    content_type = refl;
    ended_extra = simp append_assoc;
    printable_extra = (
      omega arith,
      rw
          (
            all-append (λ c. within 32 126 c) w.nonce (csp_middle ++ (w.nonce ++ csp_end)),
            plain_nonce,
            all-append (λ c. within 32 126 c) w.nonce csp_end,
            plain_nonce,
          )
          refl,
      tt,
    );
  }

  pub api_response-IsPlain : (v : Json) → IsPlain (api_response w v)
  api_response-IsPlain v =
      elim (get_bool (lit "ok") v)
        as (λ o. IsPlain (elim o [
          | none ↦ json_response "200 OK" (w.print_json v)
          | some b ↦ json_response (if b then "200 OK" else "400 Bad Request") (w.print_json v)
        ])) [
          | none ↦ json_IsPlain "200 OK" (w.print_json v) refl
          | some b ↦
              elim b
                as (λ b.
                  IsPlain
                    (json_response (if b then "200 OK" else "400 Bad Request") (w.print_json v))) [
                      | true ↦ json_IsPlain "200 OK" (w.print_json v) refl
                      | false ↦ json_IsPlain "400 Bad Request" (w.print_json v) refl
                    ]
        ]

  pub mock_oauth-IsPlain : (r : HttpRequest) → IsPlain (mock_oauth w r)
  unfolding mock_oauth
  mock_oauth-IsPlain r =
      elim (mock_token r)
        as (λ o. IsPlain (elim o [
          | none ↦ json_response "401 Unauthorized" (lit "{\"error\":\"invalid_client\"}")
          | some v ↦ ok_json w v
        ])) [
          | none ↦ json_IsPlain "401 Unauthorized" (lit "{\"error\":\"invalid_client\"}") refl
          | some v ↦ json_IsPlain "200 OK" (w.print_json v) refl
        ]
