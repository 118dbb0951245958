-- ===== src/Outbound/Request/Checked.antt =====
-- What every request that `perform_http` makes is like.
use mathlib.Core.Bool.{true≢false}
use allgres.Base.{
  Bool, true, false, not, Option, none, some, List, [], ◌∷◌, ◌≡◌, refl, sym, ap, ◌∙◌, arith,
  if◌then◌else◌, all, keep,
}
use allgres.Bytes.{Bytes, lit}
use allgres.Bytes.Compare.{same}
use allgres.Json.{Json, get_str}
use allgres.Outbound.Request.{
  Method, get_method, post, put, patch, delete, Payload, no_body, Request, Response, Prepared,
  refused, request, has_http_scheme, is_content_type, payload_for, kind_of, headers_of, body_of,
  is_private_allowed, function_method, request_with, request_of_kind, prepare, outcome_of,
  when_prepared, perform_http,
}

-- Only GET and DELETE are sent without a body.
abbrev pub is_bodyless : Method → Bool
is_bodyless get_method = true
is_bodyless delete = true
is_bodyless _ = false

abbrev pub is_empty_payload : Payload → Bool
is_empty_payload no_body = true
is_empty_payload _ = false

pub record IsChecked (call_id : Bytes) (call : Json) (r : Request) : Type 0 where
  pub asked : get_str (lit "url") call ≡ some r.url
  pub schemed : has_http_scheme r.url ≡ true
  pub not_redirected : r.max_redirects ≡ 0
  pub guarded : r.allow_private ≡ is_private_allowed call
  pub cancellable : r.cancelled_by ≡ some call_id
  pub bodied : is_empty_payload r.payload ≡ is_bodyless r.method
  pub typed_once : kind_of call ≡ lit "oauth" → all (λ h. not (is_content_type h)) r.headers ≡ true

all-keep : {A : Type 0} (p : A → Bool) (xs : List A) → all p (keep p xs) ≡ true
all-keep p [] = refl
all-keep p (x ∷ xs) = ground (arith, all-keep p xs)

module _ (call_id : Bytes) (call : Json) where
  abbrev pub Allows : Prepared → Type 0
  Allows (refused e) = Unit
  Allows (request r) = IsChecked call_id call r

  payload_for-bodied :
      (m : Method) (body : Json) → is_empty_payload (payload_for m body) ≡ is_bodyless m
  payload_for-bodied get_method body = refl
  payload_for-bodied post body = refl
  payload_for-bodied put body = refl
  payload_for-bodied patch body = refl
  payload_for-bodied delete body = refl

  request_with-Allows :
      (url : Bytes) (method : Method) (headers : List (Bytes × Bytes)) (payload : Payload)
      → get_str (lit "url") call ≡ some url
      → has_http_scheme url ≡ true
      → is_empty_payload payload ≡ is_bodyless method
      → (kind_of call ≡ lit "oauth" → all (λ h. not (is_content_type h)) headers ≡ true)
      → Allows (request_with call call_id url method headers payload)
  request_with-Allows url method headers payload a s b t = record {
    asked = a;
    schemed = s;
    not_redirected = refl;
    guarded = refl;
    cancellable = refl;
    bodied = b;
    typed_once = t;
  }

  if_Allows :
      (p q : Prepared) (b : Bool)
      → (b ≡ true → Allows p)
      → (b ≡ false → Allows q)
      → Allows (if b then p else q)
  if_Allows p q true h k = h refl
  if_Allows p q false h k = k refl

  request_of_kind-Allows :
      (url : Bytes)
      → get_str (lit "url") call ≡ some url
      → has_http_scheme url ≡ true
      → Allows (request_of_kind call call_id url)
  unfolding same
  request_of_kind-Allows url a s =
      if_Allows _ _ (same (kind_of call) (lit "function"))
        (λ f.
          request_with-Allows url (function_method call) _ _ a s
            (payload_for-bodied (function_method call) (body_of call))
            (λ e. absurd (true≢false (sym f ∙ ap (λ k. same k (lit "function")) e))))
        (λ _.
          if_Allows _ _ (same (kind_of call) (lit "oauth"))
            (λ _.
              request_with-Allows url post _ _ a s refl
                (λ _. all-keep (λ h. not (is_content_type h)) (headers_of call)))
            (λ n.
              request_with-Allows url post _ _ a s refl
                (λ e. absurd (true≢false (ap (λ k. same k (lit "oauth")) (sym e) ∙ n)))))

  pub prepare-Allows : Allows (prepare call call_id)
  unfolding prepare
  prepare-Allows = by_url (get_str (lit "url") call) refl
    where
      by_url :
          (o : Option Bytes)
          → get_str (lit "url") call ≡ o
          → Allows (elim o [
            | none ↦ refused (lit "missing outbound URL")
            | some url ↦
                if has_http_scheme url
                then request_of_kind call call_id url
                else refused (lit "outbound URL scheme not allowed")
          ])
      by_url none a = tt
      by_url (some url) a =
          if_Allows _ _ (has_http_scheme url) (λ s. request_of_kind-Allows url a s) (λ _. tt)

-- The only request that a call makes is one that has passed every check: to the URL that the call
-- names, by http or https, without redirects, with leave for private addresses only if the call
-- gives it, under the call's own flag, with a body unless it is GET or DELETE, and for a token
-- without a content type of the call's. Two clients that answer such requests alike give the same
-- result.
pub perform_http-checked :
    (call_id : Bytes) (call : Json) (agent other : Request → Response)
    → ((r : Request) → IsChecked call_id call r → agent r ≡ other r)
    → perform_http agent call_id call ≡ perform_http other call_id call
unfolding perform_http
perform_http-checked call_id call agent other h =
    by_prepared (prepare call call_id) (prepare-Allows call_id call)
  where
    by_prepared :
        (p : Prepared) → Allows call_id call p → when_prepared agent p ≡ when_prepared other p
    by_prepared (refused e) a = refl
    by_prepared (request r) a = ap outcome_of (h r a)
