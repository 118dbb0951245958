-- ===== src/Web/Mock.antt =====
-- src/web.rs: the mock endpoints of the web worker, which tests drive.
use allgres.Base.{
  ◌||◌, not, Option, none, some, List, [], ◌∷◌, ◌++◌, if◌then◌else◌, value_or, is_empty,
}
use allgres.Bytes.{Bytes, lit}
use allgres.Bytes.Compare.{same, to_lower}
use allgres.Bytes.Search.{contains}
use allgres.Http.{HttpRequest}
use allgres.Http.Form.{form_value}
use allgres.Json.{Json, num, str, arr, obj, Items, nil, cons, end, entry, text, get_str}

abbrev pub mock_oauth_secret : Bytes
mock_oauth_secret = lit "allgres-mock-oauth-secret"

pub mock_completion : Json
mock_completion = obj (
    entry "id" (text "allgres-mock") (
      entry "object" (text "chat.completion") (
        entry "choices"
          (arr (
            cons
              (obj (
                entry "index" (num (lit "0")) (
                  entry "message"
                    (obj (
                      entry "role" (text "assistant") (
                        entry "content"
                          (text
                            "{\"action\":\"final_answer\",\"answer\":\"Allgres mock runtime OK\"}")
                          end)))
                    (entry "finish_reason" (text "stop") end))))
              nil))
          end)))

-- The token that the mock OAuth endpoint gives for a code and the right secret, none otherwise.
pub mock_token : HttpRequest → Option Json
mock_token r =
    let code = value_or [] (form_value r.body (lit "code")) in
    let secret = value_or [] (form_value r.body (lit "client_secret")) in
    if is_empty code || not (same secret mock_oauth_secret)
    then none
    else some (
        obj (
          entry "access_token" (str (lit "allgres-mock-access-" ++ code)) (
            entry "refresh_token" (text "allgres-mock-refresh")
              (entry "expires_in" (num (lit "3600")) (entry "token_type" (text "bearer") end)))))

abbrev keywords : List Bytes
keywords =
    lit "alpha"
    ∷ lit "beta"
    ∷ lit "gamma"
    ∷ lit "delta"
    ∷ lit "epsilon"
    ∷ lit "zeta"
    ∷ lit "eta"
    ∷ lit "theta"
    ∷ []

weights : Bytes → List Bytes → Items
weights input [] = nil
weights input (k ∷ ks) =
    cons (num (if contains k input then lit "1.0" else lit "0.05")) (weights input ks)

module _ (parse_json : Bytes → Option Json) where
  input_of : HttpRequest → Bytes
  input_of r =
      to_lower
        (value_or [] (elim (parse_json r.body) [ none ↦ none | some v ↦ get_str (lit "input") v ]))

  pub mock_embedding : HttpRequest → Json
  mock_embedding r = obj (
      entry "data"
        (arr (
          cons
            (obj (
              entry "embedding" (arr (weights (input_of r) keywords))
                (entry "index" (num (lit "0")) end)))
            nil))
        (entry "model" (text "allgres-mock-embed") (entry "object" (text "list") end)))
