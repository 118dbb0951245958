-- ===== src/Web/Api.antt =====
-- src/web.rs `api_route`: which request to the runtime worker an API call becomes.
pub mod Laws
use Prim.Native.String.{String}
use allgres.Base.{ℕ, zero, suc, false, ◌&&◌, Option, none, some, if◌then◌else◌, length, value_or}
use allgres.Bytes.{Bytes, lit}
use allgres.Bytes.Compare.{same, starts_with, strip_prefix}
use allgres.Http.{HttpRequest, route, header}
use allgres.Json.{Json, null, num, str, obj, end, entry, text, get_str, set_key}

-- What `api_route` does: ask the runtime worker, answer by itself, find no route, or panic.
pub data ApiCall : Type 0 where
  ask : Json → ApiCall
  answer : Json → ApiCall
  no_route : ApiCall
  panics : ApiCall

-- `trim_start_matches`, which strips the prefix again and again.
trim_prefixes : ℕ → Bytes → Bytes → Bytes
trim_prefixes zero p s = s
trim_prefixes (suc fuel) p s = elim (strip_prefix p s) [
  | none ↦ s
  | some rest ↦ trim_prefixes fuel p rest
]

abbrev pub agents_prefix : Bytes
agents_prefix = lit "/api/v1/agents/"

abbrev action : String → Json
action name = obj (entry "action" (text name) end)

abbrev pub action_required : Json
action_required = obj (entry "ok" (Json.bool false) (entry "error" (text "action_required") end))

or_panic : Option Json → ApiCall
or_panic none = panics
or_panic (some v) = ask v

-- The session token of a header, null where there is none.
session_of : Option Bytes → Json
session_of none = null
session_of (some s) = str s

-- `b["action"] = json!(..)`, sent.
pub with_action : String → Json → ApiCall
with_action name b = or_panic (set_key (lit "action") (text name) b)

pub update_agent : Bytes → Json → ApiCall
update_agent path b = elim (set_key (lit "action") (text "agents.update") b) [
  | none ↦ panics
  | some b' ↦
      or_panic (set_key (lit "agent_id") (str (trim_prefixes (length path) agents_prefix path)) b')
]

pub listing : String → String → HttpRequest → ApiCall
listing name limit r = ask (
    obj (
      entry "action" (text name) (
        entry "limit" (num (lit limit))
          (entry "session_token" (session_of (header r (lit "x-allgres-session"))) end))))

pub passthrough : Json → ApiCall
passthrough b = elim (get_str (lit "action") b) [ none ↦ answer action_required | some _ ↦ ask b ]

module _ (parse_json : Bytes → Option Json) where
  -- A body that is no JSON counts as the empty object.
  pub body_json : HttpRequest → Json
  body_json r = value_or (obj end) (parse_json r.body)

  unfoldable pub get_route : HttpRequest → ApiCall
  get_route r =
      if same (route r) (lit "/api/v1/status")
      then ask (action "overview")
      else if same (route r) (lit "/api/v1/agents")
      then ask (action "agents.list")
      else if same (route r) (lit "/api/v1/tasks")
      then listing "tasks.list" "200" r
      else if same (route r) (lit "/api/v1/logs")
      then listing "logs.list" "250" r
      else if same (route r) (lit "/api/v1/settings")
      then ask (action "settings.get")
      else no_route

  unfoldable pub post_route : HttpRequest → ApiCall
  post_route r =
      if same (route r) (lit "/api/v1/agents")
      then with_action "agents.create" (body_json r)
      else if same (route r) (lit "/api/v1/run")
      then with_action "run" (body_json r)
      else if same (route r) (lit "/api/v1/selftest")
      then ask (action "selftest")
      else if same (route r) (lit "/api/v1/settings/provider")
      then with_action "provider.update" (body_json r)
      else if same (route r) (lit "/api/v1/rpc")
      then passthrough (body_json r)
      else no_route

  -- The arms of the match, by method; no two arms of different methods overlap.
  unfoldable pub api_route : HttpRequest → ApiCall
  api_route r =
      if same r.method (lit "GET")
      then get_route r
      else if same r.method (lit "POST")
      then post_route r
      else if same r.method (lit "PATCH") && starts_with agents_prefix (route r)
      then update_agent (route r) (body_json r)
      else no_route
