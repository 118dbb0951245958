-- ===== src/Worker/Outbox/Guarded.antt =====
-- What fills the pool and harvests its results keeps to the policy.
use allgres.Base.{refl, ℕ, ◌-◌, Bool, true, false, ◌&&◌, List, [], ◌∷◌, ltb, if◌then◌else◌}
use allgres.Bytes.{Bytes}
use allgres.Bytes.Compare.{same}
use allgres.Worker.Policy.{is_own}
use allgres.Worker.Session.{Database, ◌>>=◌, pure}
use allgres.Worker.Guard.{Keeps, bind_Triple, pure-Keeps}
use allgres.Worker.Guard.Queues.{claim-Keeps, submit_with-Keeps, dispatch_and_claim-Keeps}
use allgres.Worker.Pumps.{jobs_in}
use allgres.Worker.Outbox.{
  OutboundQueue, outbound, oauth, agent_embedding, provider_probe, OutboundJob, OutboundResult,
  capacity, Outbox, send_calls, claim_for, fill_from, fill, submit_for, harvest,
}

module _ (db : Database) where
  claim_for-Keeps : (q : OutboundQueue) (limit : ℕ) → Keeps db (claim_for db false q limit)
  unfolding is_own same
  claim_for-Keeps outbound limit = dispatch_and_claim-Keeps db limit
  claim_for-Keeps oauth limit = claim-Keeps db _ _ _ refl
  claim_for-Keeps agent_embedding limit = claim-Keeps db _ _ _ refl
  claim_for-Keeps provider_probe limit = claim-Keeps db _ _ _ refl

  submit_for-Keeps :
      (q : OutboundQueue) (id : Bytes) (status : ℕ) (body : Bytes)
      → Keeps db (submit_for db false q id status body)
  unfolding is_own same
  submit_for-Keeps outbound id status body = submit_with-Keeps db _ _ refl
  submit_for-Keeps oauth id status body = submit_with-Keeps db _ _ refl
  submit_for-Keeps agent_embedding id status body = submit_with-Keeps db _ _ refl
  submit_for-Keeps provider_probe id status body = submit_with-Keeps db _ _ refl

  fill_from-Keeps :
      (ready : Bool) (receiving : OutboundJob → Bool) (q : OutboundQueue) (o : Outbox)
      → Keeps db (fill_from db false ready receiving q o)
  unfolding fill_from
  fill_from-Keeps ready receiving q o =
      elim (ready && ltb o.in_flight capacity)
        as (λ b. Keeps db (
          if b
          then claim_for db false q (capacity - o.in_flight)
            >>= (λ claimed. pure (send_calls receiving q (jobs_in "calls" claimed) o))
          else pure o)) [
            | true ↦ bind_Triple db (claim_for-Keeps q _) (λ claimed. pure-Keeps db _)
            | false ↦ pure-Keeps db o
          ]

  pub fill-Keeps :
      (ready : Bool) (receiving : OutboundJob → Bool) (o : Outbox)
      → Keeps db (fill db false ready receiving o)
  unfolding fill
  fill-Keeps ready receiving o =
      bind_Triple db
        (bind_Triple db
          (bind_Triple db (fill_from-Keeps ready receiving outbound o)
            (fill_from-Keeps ready receiving oauth))
          (fill_from-Keeps ready receiving agent_embedding))
        (fill_from-Keeps ready receiving provider_probe)

  pub harvest-Keeps :
      (rs : List OutboundResult) (in_flight : ℕ) → Keeps db (harvest db false rs in_flight)
  unfolding harvest
  harvest-Keeps [] in_flight = pure-Keeps db in_flight
  harvest-Keeps (r ∷ rs) in_flight =
      bind_Triple db (submit_for-Keeps r.queue _ _ _) (λ _. harvest-Keeps rs (in_flight - 1))
