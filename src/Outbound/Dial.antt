-- ===== src/Outbound/Dial.antt =====
-- src/outbound.rs: the agents of `perform_http` and `guarded_post_json`, which are ureq with a
-- `GuardedResolver`, and the addresses that they dial.
pub mod Tests
use mathlib.Core.List.{Memᴰ}
use allgres.Base.{
  ℕ, Bool, true, false, Option, List, [], ◌∷◌, ◌≡◌, refl, sym, subst, ◌∙◌, if◌then◌else◌, All,
}
use allgres.Bytes.{Bytes}
use allgres.Json.{Json, Fields}
use allgres.Outbound.Address.{IpAddr, is_blocked_ip, Resolved, addresses, guarded_resolve}
use allgres.Outbound.Address.Resolver.{AllOpen, guarded_resolve-addresses}
use allgres.Outbound.Request.Checked.{Allows, prepare-Allows}
use allgres.Outbound.Request.{
  Request, Response, Prepared, refused, request, prepare, perform_http, guarded_post_json,
  is_private_allowed,
}

-- How a resolver answers: for each time that it is asked, by the URL, since a name may stand for
-- another address each time.
abbrev pub Resolver : Type 0
Resolver = ℕ → Bytes → Resolved

-- ureq with a resolver: what it answers to a request, and the addresses that it has connected to.
abbrev pub Client : Type 0
Client = Resolver → Request → Response × List IpAddr

-- What ureq documents: it connects only to what its resolver returns for the request's URL.
pub record ConnectsToResolved (client : Client) : Type 0 where
  pub connects :
      (resolver : Resolver) (r : Request)
      → All
          (λ a.
            (k : ℕ) × (addrs : List IpAddr) × (resolver k r.url ≡ addresses addrs) × Memᴰ a addrs)
          (client resolver r).1

-- `Agent::with_parts(.., GuardedResolver { allow_private })`, over the default resolver.
pub agent : Client → Resolver → Request → Response × List IpAddr
agent client default r = client (λ k url. guarded_resolve r.allow_private (default k url)) r

-- The addresses that `perform_http` connects to for what it has prepared; the response is that of
-- the same request.
abbrev dials_for : Client → Resolver → Prepared → List IpAddr
dials_for client default (refused e) = []
dials_for client default (request r) = (agent client default r).1

pub perform_http_dials : Client → Resolver → Bytes → Json → List IpAddr
perform_http_dials client default call_id call = dials_for client default (prepare call call_id)

AllOpen-Memᴰ :
    (a : IpAddr) {addrs : List IpAddr} → Memᴰ a addrs → AllOpen addrs → is_blocked_ip a ≡ false
AllOpen-Memᴰ a (Memᴰ.head e) h = subst (λ x. is_blocked_ip x ≡ false) (sym e) h.0
AllOpen-Memᴰ a (Memᴰ.tail m) h = AllOpen-Memᴰ a m h.1

-- An address that was dialled, and how it was resolved.
abbrev Answered : (ℕ → Resolved) → IpAddr → Type 0
Answered answers a = (k : ℕ) × (addrs : List IpAddr) × (answers k ≡ addresses addrs) × Memᴰ a addrs

guarded-AllOpen :
    (answers : ℕ → Resolved) (dialled : List IpAddr)
    → All (Answered (λ k. guarded_resolve false (answers k))) dialled
    → AllOpen dialled
guarded-AllOpen answers [] h = tt
guarded-AllOpen answers (a ∷ dialled) ((k, addrs, resolved, among), h) = (
  AllOpen-Memᴰ a among ((guarded_resolve-addresses (answers k) addrs).0 resolved).1,
  guarded-AllOpen answers dialled h,
)

module _ (client : Client) (documented : ConnectsToResolved client) (default : Resolver) where
  pub agent-AllOpen : (r : Request) → r.allow_private ≡ false → AllOpen (agent client default r).1
  unfolding agent
  agent-AllOpen r e =
      guarded-AllOpen (λ k. default k r.url) _
        (subst
          (λ b.
            All (Answered (λ k. guarded_resolve b (default k r.url)))
              (client (λ k url. guarded_resolve r.allow_private (default k url)) r).1)
          e (documented.connects (λ k url. guarded_resolve r.allow_private (default k url)) r))

  -- A call that is not given leave for private addresses connects to no blocked address, whatever
  -- its URL, and whatever the default resolver answers each time that it is asked: if the client
  -- connects only to what its resolver returns.
  pub perform_http_dials-AllOpen :
      (call_id : Bytes) (call : Json)
      → is_private_allowed call ≡ false
      → AllOpen (perform_http_dials client default call_id call)
  unfolding perform_http_dials
  perform_http_dials-AllOpen call_id call e =
      by_prepared (prepare call call_id) (prepare-Allows call_id call)
    where
      by_prepared : (p : Prepared) → Allows call_id call p → AllOpen (dials_for client default p)
      by_prepared (refused x) a = tt
      by_prepared (request r) a = agent-AllOpen r (a.guarded ∙ e)
