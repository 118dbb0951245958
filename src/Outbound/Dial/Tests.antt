-- ===== src/Outbound/Dial/Tests.antt =====
-- A client that connects to the first address of a name, and a call to a name of a private address.
use mathlib.Core.List.{Memᴰ}
use allgres.Base.{ℕ, zero, suc, List, [], ◌∷◌, ◌≡◌, refl, All}
use allgres.Bytes.{lit}
use allgres.Bytes.Compare.{same}
use allgres.Json.{Json, obj, entry, end, text, get, get_str, get_bool, lookup_field}
use allgres.Outbound.Address.{IpAddr, v4, Resolved, host_not_found, resolver_error, addresses}
use allgres.Outbound.Address.Ranges.{ip}
use allgres.Outbound.Address.Resolver.{AllOpen}
use allgres.Outbound.Request.{failed}
use allgres.Outbound.Dial.{
  Client, Resolver, ConnectsToResolved, perform_http_dials, perform_http_dials-AllOpen,
}

abbrev first_of : Resolved → List IpAddr
first_of (addresses (a ∷ addrs)) = a ∷ []
first_of _ = []

abbrev dialling : Client
dialling resolver r = (failed [], first_of (resolver 0 r.url))

dialling-ConnectsToResolved : ConnectsToResolved dialling
dialling-ConnectsToResolved = record {
  connects = λ resolver r. by_answer (λ k. resolver k r.url) (resolver 0 r.url) refl;
}
  where
    by_answer :
        (answers : ℕ → Resolved) (x : Resolved)
        → answers 0 ≡ x
        → All
            (λ a. (k : ℕ) × (addrs : List IpAddr) × (answers k ≡ addresses addrs) × Memᴰ a addrs)
            (first_of x)
    by_answer answers (addresses (a ∷ addrs)) e = ((0, a ∷ addrs, e, Memᴰ.head refl), tt)
    by_answer answers (addresses []) e = tt
    by_answer answers host_not_found e = tt
    by_answer answers (resolver_error n) e = tt

abbrev public : IpAddr
public = v4 (ip 93 184 216 34)

-- The name is moved to a private address after it has been asked for once.
abbrev rebinding : Resolver
rebinding zero url = addresses (public ∷ [])
rebinding (suc k) url = addresses (v4 (ip 127 0 0 1) ∷ [])

abbrev call : Json
call = obj (entry "url" (text "https://example.com/") end)

perform_http_dials-AllOpen_example : AllOpen (perform_http_dials dialling rebinding (lit "c") call)
unfolding get get_str get_bool lookup_field same
perform_http_dials-AllOpen_example =
    perform_http_dials-AllOpen dialling dialling-ConnectsToResolved rebinding (lit "c") call refl
