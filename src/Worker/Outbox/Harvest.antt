-- ===== src/Worker/Outbox/Harvest.antt =====
-- Every result that has come is handed back.
use Prim.Native.String.{String}
use allgres.Base.{false, ℕ, ◌-◌, List, [], ◌∷◌, ◌≡◌, refl, ap, arith, ◌∙◌, length}
use allgres.Bytes.{Bytes, lit}
use allgres.Bytes.Compare.{same}
use allgres.Worker.Session.{Arg, text_arg, int_arg, Database, Session, returns, next}
use allgres.Worker.Claims.{sanitized}
use allgres.Worker.Claims.Handed.{
  complete_outbound, complete_oauth, complete_agent_embedding, complete_provider_probe,
  is_completion, TakesResults, handed_back, submit_with-handed_back,
}
use allgres.Worker.Outbox.{
  OutboundQueue, outbound, oauth, agent_embedding, provider_probe, OutboundResult, harvest,
  submit_for,
}

-- The statement that completes a call of a queue.
abbrev pub complete_for : OutboundQueue → String
complete_for outbound = complete_outbound
complete_for oauth = complete_oauth
complete_for agent_embedding = complete_agent_embedding
complete_for provider_probe = complete_provider_probe

abbrev pub tell_result : OutboundResult → List Arg
tell_result r = text_arg r.call_id ∷ int_arg r.status ∷ text_arg (sanitized r.body) ∷ []

-- Each result to its own queue and under its own id, one after the other.
abbrev pub all_handed_back : List OutboundResult → Session → Session
all_handed_back [] s = s
all_handed_back (r ∷ rs) s =
    all_handed_back rs (handed_back (lit (complete_for r.queue)) (tell_result r) s)

submit_for-handed_back :
    (db : Database) (q : OutboundQueue) (call_id : Bytes) (status : ℕ) (body : Bytes) (s : Session)
    → TakesResults db
    → submit_for db false q call_id status body s ≡ (
      handed_back
          (lit (complete_for q))
          (text_arg call_id ∷ int_arg status ∷ text_arg (sanitized body) ∷ [])
          s,
      returns tt,
    )
unfolding is_completion same
submit_for-handed_back db outbound id status body s d =
    submit_with-handed_back db d complete_outbound _ s refl
submit_for-handed_back db oauth id status body s d =
    submit_with-handed_back db d complete_oauth _ s refl
submit_for-handed_back db agent_embedding id status body s d =
    submit_with-handed_back db d complete_agent_embedding _ s refl
submit_for-handed_back db provider_probe id status body s d =
    submit_with-handed_back db d complete_provider_probe _ s refl

pub harvest-all_handed_back :
    (db : Database) (rs : List OutboundResult) (n : ℕ) (s : Session)
    → TakesResults db
    → harvest db false rs n s ≡ (all_handed_back rs s, returns (n - length rs))
unfolding harvest
harvest-all_handed_back db [] n s d = ap (λ m. (s, returns m)) (omega arith)
harvest-all_handed_back db (r ∷ rs) n s d =
    ap (next (λ _. harvest db false rs (n - 1)))
      (submit_for-handed_back db r.queue r.call_id r.status r.body s d)
    ∙ harvest-all_handed_back db rs (n - 1) _ d
    ∙ ap (λ m. (all_handed_back (r ∷ rs) s, returns m)) (omega arith)
