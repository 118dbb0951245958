-- ===== src/Outbound/Request/Tests.antt =====
-- Calls that are made and refused.
use allgres.Base.{false, some, [], ◌≡◌, refl, if◌then◌else◌}
use allgres.Bytes.{lit}
use allgres.Bytes.Compare.{same, starts_with}
use allgres.Json.{Json, obj, end, entry, text, get, get_str, get_bool, lookup_field}
use allgres.Outbound.Request.{
  Request, Response, answered, failed, perform_http, prepare, request, has_http_scheme, method_of,
  delete, no_body,
}
use allgres.Outbound.Request.Checked.{perform_http-checked}

abbrev reply : Request → Response
reply r = answered 200 (some (lit "ok"))

abbrev call : Json
call = obj (entry "url" (text "HTTPS://example.org/") end)

abbrev file_call : Json
file_call = obj (entry "url" (text "file:///etc/passwd") end)

refused_scheme : perform_http reply (lit "a") file_call ≡ (0, lit "outbound URL scheme not allowed")
unfolding perform_http prepare has_http_scheme starts_with get_str get lookup_field same
refused_scheme = refl

delete_without_body :
    prepare
      (obj (
        entry "url"
          (text "http://example.org/")
          (entry "kind" (text "function") (entry "method" (text "delete") end))))
      (lit "a")
    ≡ request (record {
      method = delete;
      url = lit "http://example.org/";
      headers = [];
      payload = no_body;
      timeout = 45;
      max_redirects = 0;
      allow_private = false;
      cancelled_by = some (lit "a");
    })
unfolding prepare has_http_scheme starts_with get_str get_bool get lookup_field same method_of
delete_without_body = refl

abbrev strict : Request → Response
strict r = if has_http_scheme r.url then reply r else failed (lit "scheme")

perform_http-checked_example :
    perform_http reply (lit "a") call ≡ perform_http strict (lit "a") call
perform_http-checked_example =
    perform_http-checked (lit "a") call reply strict (λ r c. rw c.schemed refl)
