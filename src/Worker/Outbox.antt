-- ===== src/Worker/Outbox.antt =====
-- src/outbound.rs `OutboundQueue`, `OutboundJob`, `OutboundResult`, and the parts of
-- src/runtime_worker.rs `allgres_runtime_main` that hand calls to the pool of HTTP threads and take
-- their results back.
pub mod Guarded
pub mod Limits
pub mod Bounds
pub mod Harvest
use Prim.Native.String.{String}
use allgres.Base.{
  ℕ, ◌+◌, ◌-◌, ◌*◌, Bool, ◌&&◌, Option, none, some, List, [], ◌∷◌, ◌++◌, ltb, if◌then◌else◌,
}
use allgres.Bytes.{Bytes, lit}
use allgres.Json.{Json, obj, text, Items, nil, cons, insert_field, get_str}
use allgres.Worker.Ident.{valid_uuid}
use allgres.Worker.Session.{Database, Exec, ◌>>=◌, pure}
use allgres.Worker.Claims.{
  dispatch_and_claim, claim_oauth_jobs, claim_agent_embedding_jobs, claim_provider_probe_jobs,
  submit_http_result, submit_oauth_result, submit_agent_embedding_result,
  submit_provider_probe_result,
}
use allgres.Worker.Pumps.{jobs_in}

pub data OutboundQueue : Type 0 where
  outbound oauth agent_embedding provider_probe : OutboundQueue

pub record OutboundJob : Type 0 where
  pub call_id : Bytes
  pub queue : OutboundQueue
  pub call : Json

pub record OutboundResult : Type 0 where
  pub call_id : Bytes
  pub queue : OutboundQueue
  pub status : ℕ
  pub body : Bytes

-- `HTTP_THREADS`, and the most calls in flight.
abbrev pub http_threads : ℕ
http_threads = 4

abbrev pub capacity : ℕ
capacity = http_threads * 2

-- The calls in flight, and those sent in this round of the loop; `queued` is their
-- number.
pub record Outbox : Type 0 where
  pub in_flight : ℕ
  pub queued : ℕ
  pub sent : List OutboundJob

-- `obj.insert("kind", ..)`; a call that is no object stays as it is.
abbrev with_kind : String → Json → Json
with_kind k (obj fs) = obj (insert_field (lit "kind") (text k) fs)
with_kind k v = v

-- What each queue makes of a call.
abbrev marked : OutboundQueue → Json → Json
marked outbound call = call
marked oauth call = with_kind "oauth" call
marked agent_embedding call = with_kind "embedding" call
marked provider_probe call = with_kind "function" call

abbrev push : OutboundJob → Outbox → Outbox
push job o = record {
  in_flight = o.in_flight + 1;
  queued = o.queued + 1;
  sent = o.sent ++ job ∷ [];
}

-- `jobs.send`, none where no thread receives any more. Whether one does is `receiving`.
unfoldable pub send_job : (OutboundJob → Bool) → OutboundJob → Outbox → Option Outbox
send_job receiving job o = if receiving job then some (push job o) else none

-- One claimed call: none ends the loop.
unfoldable pub send_call : (OutboundJob → Bool) → OutboundQueue → Json → Outbox → Option Outbox
send_call receiving q call o = elim (get_str (lit "call_id") call) [
  | none ↦ some o
  | some id ↦
      if valid_uuid id
      then send_job receiving (record { call_id = id; queue = q; call = marked q call }) o
      else some o
]

unfoldable pub send_calls : (OutboundJob → Bool) → OutboundQueue → Items → Outbox → Outbox
send_calls receiving q nil o = o
send_calls receiving q (cons call calls) o = elim (send_call receiving q call o) [
  | none ↦ o
  | some o' ↦ send_calls receiving q calls o'
]

module _ (db : Database) (disabled : Bool) where
  abbrev claim_for : OutboundQueue → ℕ → Exec Json
  claim_for outbound = dispatch_and_claim db disabled
  claim_for oauth = claim_oauth_jobs db disabled
  claim_for agent_embedding = claim_agent_embedding_jobs db disabled
  claim_for provider_probe = claim_provider_probe_jobs db disabled

  -- As many calls are claimed as there is room for.
  unfoldable pub fill_from : Bool → (OutboundJob → Bool) → OutboundQueue → Outbox → Exec Outbox
  fill_from ready receiving q o =
      if ready && ltb o.in_flight capacity
      then claim_for q (capacity - o.in_flight)
        >>= (λ claimed. pure (send_calls receiving q (jobs_in "calls" claimed) o))
      else pure o

  unfoldable pub fill : Bool → (OutboundJob → Bool) → Outbox → Exec Outbox
  fill ready receiving o =
      fill_from ready receiving outbound o
      >>= fill_from ready receiving oauth
      >>= fill_from ready receiving agent_embedding
      >>= fill_from ready receiving provider_probe

  abbrev submit_for : OutboundQueue → Bytes → ℕ → Bytes → Exec Unit
  submit_for outbound = submit_http_result db disabled
  submit_for oauth = submit_oauth_result db disabled
  submit_for agent_embedding = submit_agent_embedding_result db disabled
  submit_for provider_probe = submit_provider_probe_result db disabled

  -- The results that have come, and how many calls are then in flight.
  unfoldable pub harvest : List OutboundResult → ℕ → Exec ℕ
  harvest [] in_flight = pure in_flight
  harvest (r ∷ rs) in_flight =
      submit_for r.queue r.call_id r.status r.body >>= (λ _. harvest rs (in_flight - 1))
