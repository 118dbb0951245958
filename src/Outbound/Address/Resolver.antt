-- ===== src/Outbound/Address/Resolver.antt =====
-- A call that may not reach private addresses never connects to one.
use allgres.Base.{false, List, [], ◌∷◌, ◌≡◌, ◌↔◌, arith, any, All}
use allgres.Outbound.Address.{
  IpAddr, is_blocked_ip, Resolved, host_not_found, resolver_error, addresses, guarded_resolve,
}

-- No address of the list is blocked.
abbrev pub AllOpen : List IpAddr → Type 0
AllOpen = All (λ a. is_blocked_ip a ≡ false)

any-AllOpen : (addrs : List IpAddr) → (any is_blocked_ip addrs ≡ false) ↔ AllOpen addrs
any-AllOpen [] = ground arith
any-AllOpen (a ∷ addrs) = ground (arith, any-AllOpen addrs)

-- Without leave for private networks, the resolver hands on exactly the answers of the default
-- resolver that hold no blocked address, as they are: one blocked address refuses them all.
pub guarded_resolve-addresses :
    (r : Resolved) (addrs : List IpAddr)
    → (guarded_resolve false r ≡ addresses addrs) ↔ ((r ≡ addresses addrs) × AllOpen addrs)
unfolding guarded_resolve
guarded_resolve-addresses host_not_found addrs = ground arith
guarded_resolve-addresses (resolver_error n) addrs = ground arith
guarded_resolve-addresses (addresses xs) addrs = ground (arith, any-AllOpen xs, any-AllOpen addrs)
