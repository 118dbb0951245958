-- ===== src/Web/Api/Laws.antt =====
-- What the API sends on, and where it panics.
use allgres.Base.{
  Bool, true, false, Option, none, some, ◌≡◌, ◌≢◌, ◌⊎◌, ◌↔◌, inl, inr, refl, ◌∙◌, arith,
  if◌then◌else◌, Option-cases, length,
}
use Prim.Native.String.{String}
use allgres.Bytes.{Bytes, lit}
use allgres.Bytes.Compare.{same, same_iff, starts_with}
use allgres.Http.{HttpRequest, route}
use allgres.Json.{
  Json, null, str, obj, Fields, set_key, get_str, get, lookup_field, insert_field, text,
}
use allgres.Json.Laws.{get_str-set_key, get_str-set_ne}
use allgres.Web.Api.{
  action, ApiCall, ask, answer, no_route, panics, agents_prefix, or_panic, with_action,
  update_agent, listing, passthrough, body_json, get_route, post_route, api_route, trim_prefixes,
}

-- Whether a value takes a new key: an object or null.
abbrev pub takes_keys : Json → Bool
takes_keys null = true
takes_keys (obj fs) = true
takes_keys _ = false

set_key-takes_keys :
    (k : Bytes) (x v : Json)
    → ((set_key k x v ≡ none) × (takes_keys v ≡ false))
      ⊎ ((w : Json) × (set_key k x v ≡ some w) × (takes_keys v ≡ true) × (takes_keys w ≡ true))
unfolding set_key
set_key-takes_keys k x null = inr (obj (Fields.field k x Fields.end), refl, refl, refl)
set_key-takes_keys k x (obj fs) = inr (obj (insert_field k x fs), refl, refl, refl)
set_key-takes_keys k x _ = inl (refl, refl)

with_action-panics :
    (name : String) (v : Json) → (with_action name v ≡ panics) ↔ (takes_keys v ≡ false)
unfolding with_action or_panic
with_action-panics name v = ground (arith, set_key-takes_keys (lit "action") (text name) v)

update_agent-panics :
    (path : Bytes) (v : Json) → (update_agent path v ≡ panics) ↔ (takes_keys v ≡ false)
unfolding update_agent or_panic
update_agent-panics path v = elim (set_key-takes_keys (lit "action") (text "agents.update") v) [
  | inl (e, f) ↦ rw (e, update_agent) (ground arith)
  | inr (w, e, f, g) ↦
      rw (e, update_agent)
        (ground (
          arith,
          set_key-takes_keys (lit "agent_id") (str (trim_prefixes (length path) agents_prefix path))
              w,
        ))
]

passthrough-ne-panics : (v : Json) → passthrough v ≢ panics
unfolding passthrough
passthrough-ne-panics v h = ground arith

-- The calls whose handler writes a key into the body of the request.
abbrev pub WritesBody : HttpRequest → Type 0
WritesBody r =
    ((r.method ≡ lit "POST")
      × ((route r ≡ lit "/api/v1/agents")
          ⊎ ((route r ≡ lit "/api/v1/run") ⊎ (route r ≡ lit "/api/v1/settings/provider"))))
    ⊎ ((r.method ≡ lit "PATCH") × (starts_with agents_prefix (route r) ≡ true))

module _ (parse_json : Bytes → Option Json) where
  get_route-ne-panics : (r : HttpRequest) → get_route parse_json r ≢ panics
  unfolding get_route listing
  get_route-ne-panics r h = ground arith

  post_route-panics :
      (r : HttpRequest)
      → (post_route parse_json r ≡ panics) ↔ (
          ((route r ≡ lit "/api/v1/agents")
            ⊎ ((route r ≡ lit "/api/v1/run") ⊎ (route r ≡ lit "/api/v1/settings/provider")))
          × (takes_keys (body_json parse_json r) ≡ false))
  unfolding post_route
  post_route-panics r = ground (
    arith,
    same_iff (route r) (lit "/api/v1/agents"),
    same_iff (route r) (lit "/api/v1/run"),
    same_iff (route r) (lit "/api/v1/selftest"),
    same_iff (route r) (lit "/api/v1/settings/provider"),
    with_action-panics "agents.create" (body_json parse_json r),
    with_action-panics "run" (body_json parse_json r),
    with_action-panics "provider.update" (body_json parse_json r),
    passthrough-ne-panics (body_json parse_json r),
  )

  -- An API call panics exactly if its handler writes into the body, and the body is JSON that is
  -- neither an object nor null.
  pub api_route-panics :
      (r : HttpRequest)
      → (api_route parse_json r ≡ panics)
        ↔ (WritesBody r × (takes_keys (body_json parse_json r) ≡ false))
  unfolding api_route
  api_route-panics r = ground (
    arith,
    same_iff r.method (lit "GET"),
    same_iff r.method (lit "POST"),
    same_iff r.method (lit "PATCH"),
    get_route-ne-panics r,
    post_route-panics r,
    update_agent-panics (route r) (body_json parse_json r),
  )

-- What is sent to the runtime worker, if anything, names its action.
pub data NamesAction : ApiCall → Type 0 where
  asks : {v : Json} {a : Bytes} → get_str (lit "action") v ≡ some a → NamesAction (ask v)
  answers : {v : Json} → NamesAction (answer v)
  unrouted : NamesAction no_route
  panicking : NamesAction panics

if_NamesAction :
    (b : Bool) {x y : ApiCall} → NamesAction x → NamesAction y → NamesAction (if b then x else y)
if_NamesAction true p q = p
if_NamesAction false p q = q

with_action-NamesAction : (name : String) (v : Json) → NamesAction (with_action name v)
unfolding with_action or_panic
with_action-NamesAction name v = elim (Option-cases (set_key (lit "action") (text name) v)) [
  | inl e ↦ rw (e, with_action) panicking
  | inr (w, e) ↦ rw (e, with_action) (asks (get_str-set_key (lit "action") (lit name) v w e))
]

agent_id-ne-action : lit "action" ≢ lit "agent_id"
agent_id-ne-action h = cc

update_agent-NamesAction : (path : Bytes) (v : Json) → NamesAction (update_agent path v)
unfolding update_agent or_panic
update_agent-NamesAction path v =
    elim (set_key-takes_keys (lit "action") (text "agents.update") v) [
      | inl (e, f) ↦ rw (e, update_agent) panicking
      | inr (w, e, f, g) ↦
          rw (e, update_agent)
            (elim (set_key-takes_keys (lit "agent_id") agent w) [
              | inl (e', f') ↦ rw (e', or_panic) panicking
              | inr (u, e', f', g') ↦
                  rw (e', or_panic)
                    (asks (
                      get_str-set_ne (lit "action") (lit "agent_id") agent w u agent_id-ne-action e'
                      ∙ get_str-set_key (lit "action") (lit "agents.update") v w e))
            ])
    ]
  where
    agent : Json
    agent = str (trim_prefixes (length path) agents_prefix path)

passthrough-NamesAction : (v : Json) → NamesAction (passthrough v)
unfolding passthrough
passthrough-NamesAction v = elim (Option-cases (get_str (lit "action") v)) [
  | inl e ↦ rw (e, passthrough) answers
  | inr (a, e) ↦ rw (e, passthrough) (asks e)
]

action-NamesAction : (name : String) → NamesAction (ask (action name))
unfolding get_str get lookup_field same
action-NamesAction name = asks {a = lit name} refl

listing-NamesAction : (name limit : String) (r : HttpRequest) → NamesAction (listing name limit r)
unfolding listing get_str get lookup_field same
listing-NamesAction name limit r = asks {a = lit name} refl

ruleset naming = (
  if_NamesAction, action-NamesAction, listing-NamesAction, with_action-NamesAction,
  update_agent-NamesAction, passthrough-NamesAction, unrouted,
)

module _ (parse_json : Bytes → Option Json) where
  get_route-NamesAction : (r : HttpRequest) → NamesAction (get_route parse_json r)
  unfolding get_route
  get_route-NamesAction r = search naming depth 9

  post_route-NamesAction : (r : HttpRequest) → NamesAction (post_route parse_json r)
  unfolding post_route
  post_route-NamesAction r = search naming depth 9

  -- Whatever the API sends to the runtime worker names its action.
  pub api_route-NamesAction : (r : HttpRequest) → NamesAction (api_route parse_json r)
  unfolding api_route
  api_route-NamesAction r = search (naming, get_route-NamesAction, post_route-NamesAction) depth 9
