-- ===== src/Outbound/Request.antt =====
-- src/outbound.rs `perform_http` and `guarded_post_json`: the request that a queued call stands for,
-- and what is made of the response. The HTTP client, ureq, is a function from requests to responses.
pub mod Checked
pub mod Tests
use allgres.Base.{
  ℕ, Bool, false, not, ◌||◌, Option, none, some, List, [], ◌∷◌, if◌then◌else◌, value_or, keep,
}
use allgres.Bytes.{Bytes, lit}
use allgres.Bytes.Compare.{same, to_lower, to_upper, same_ignoring_case, starts_with}
use allgres.Json.{Json, str, obj, Fields, end, field, get, get_str, get_bool}
use allgres.Utf8.{truncate_utf8}
use allgres.Worker.Claims.{max_response_bytes, http_timeout}

pub data Method : Type 0 where
  get_method post put patch delete : Method

pub data Payload : Type 0 where
  no_body : Payload
  json_body : Json → Payload
  form_body : List (Bytes × Bytes) → Payload

-- What the client is asked for: its configuration (in seconds), the resolver's leave for private
-- addresses, and the call whose flag cancels the transport.
pub record Request : Type 0 where
  pub method : Method
  pub url : Bytes
  pub headers : List (Bytes × Bytes)
  pub payload : Payload
  pub timeout : ℕ
  pub max_redirects : ℕ
  pub allow_private : Bool
  pub cancelled_by : Option Bytes

-- A response with its text, if that can be read, or an error.
pub data Response : Type 0 where
  answered : ℕ → Option Bytes → Response
  failed : Bytes → Response

-- A call is refused with a message, or stands for a request.
pub data Prepared : Type 0 where
  refused : Bytes → Prepared
  request : Request → Prepared

unfoldable pub has_http_scheme : Bytes → Bool
has_http_scheme url =
    let lowered : Bytes = to_lower url in
    starts_with (lit "http://") lowered || starts_with (lit "https://") lowered

-- The entries that are strings.
unfoldable pub string_entries : Fields → List (Bytes × Bytes)
string_entries end = []
string_entries (field k (str s) fs) = (k, s) ∷ string_entries fs
string_entries (field k _ fs) = string_entries fs

-- `as_object`; anything else has no entries.
abbrev pub entries_of : Option Json → List (Bytes × Bytes)
entries_of (some (obj fs)) = string_entries fs
entries_of _ = []

abbrev pub is_content_type : Bytes × Bytes → Bool
is_content_type (k, s) = same_ignoring_case k (lit "content-type")

-- The method of a 'function' call; a method that is not known is GET.
unfoldable pub method_of : Bytes → Method
method_of m =
    if same m (lit "POST")
    then post
    else if same m (lit "PUT")
    then put
    else if same m (lit "PATCH")
    then patch
    else if same m (lit "DELETE")
    then delete
    else get_method

abbrev pub payload_for : Method → Json → Payload
payload_for get_method body = no_body
payload_for delete body = no_body
payload_for _ body = json_body body

module _ (call : Json) where
  abbrev pub kind_of : Bytes
  kind_of = value_or (lit "llm") (get_str (lit "kind") call)

  abbrev pub headers_of : List (Bytes × Bytes)
  headers_of = entries_of (get (lit "headers") call)

  abbrev pub body_of : Json
  body_of = value_or (obj end) (get (lit "body") call)

  abbrev pub is_private_allowed : Bool
  is_private_allowed = value_or false (get_bool (lit "allow_private") call)

  abbrev pub function_method : Method
  function_method = method_of (to_upper (value_or (lit "GET") (get_str (lit "method") call)))

  abbrev request_with : Bytes → Bytes → Method → List (Bytes × Bytes) → Payload → Prepared
  request_with call_id url method headers payload = request (record {
    method = method;
    url = url;
    headers = headers;
    payload = payload;
    timeout = http_timeout;
    max_redirects = 0;
    allow_private = is_private_allowed;
    cancelled_by = some call_id;
  })

  -- By kind: a plain HTTP call, a form for a token, or a post of JSON.
  abbrev request_of_kind : Bytes → Bytes → Prepared
  request_of_kind call_id url =
      if same kind_of (lit "function")
      then request_with call_id url function_method headers_of (payload_for function_method body_of)
      else if same kind_of (lit "oauth")
      then request_with call_id url post (keep (λ h. not (is_content_type h)) headers_of)
          (form_body (entries_of (some body_of)))
      else request_with call_id url post headers_of (json_body body_of)

  pub prepare : Bytes → Prepared
  prepare call_id = elim (get_str (lit "url") call) [
    | none ↦ refused (lit "missing outbound URL")
    | some url ↦
        if has_http_scheme url
        then request_of_kind call_id url
        else refused (lit "outbound URL scheme not allowed")
  ]

-- The status and the text; an error has status 0.
unfoldable pub outcome_of : Response → ℕ × Bytes
outcome_of (answered status text) = (status, truncate_utf8 (value_or [] text) max_response_bytes)
outcome_of (failed e) = (0, e)

abbrev when_prepared : (Request → Response) → Prepared → ℕ × Bytes
when_prepared agent (refused e) = (0, e)
when_prepared agent (request r) = outcome_of (agent r)

pub perform_http : (Request → Response) → Bytes → Json → ℕ × Bytes
perform_http agent call_id call = when_prepared agent (prepare call call_id)

-- The headers are those that the caller gives, if any.
pub guarded_post_json : (Request → Response) → Bytes → Option Fields → Json → Bool → ℕ × Bytes
guarded_post_json agent url headers body allow_private =
    if has_http_scheme url
    then outcome_of (
        agent (record {
          method = post;
          url = url;
          headers = entries_of (map_obj headers);
          payload = json_body body;
          timeout = http_timeout;
          max_redirects = 0;
          allow_private = allow_private;
          cancelled_by = none;
        }))
    else (0, lit "outbound URL scheme not allowed")
  where
    map_obj : Option Fields → Option Json
    map_obj none = none
    map_obj (some fs) = some (obj fs)
