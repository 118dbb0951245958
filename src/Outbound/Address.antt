-- ===== src/Outbound/Address.antt =====
-- src/outbound.rs: the addresses that outbound calls may not reach, and the resolver that checks
-- each address that a name resolves to.
pub mod Ranges
pub mod Resolver
pub mod Tests
use Prim.Native.Nat.{bit_and}
use allgres.Base.{
  ℕ, ◌+◌, ◌*◌, ◌/◌, ◌%◌, Bool, true, false, not, ◌&&◌, ◌||◌, Option, none, some, List, [], ◌∷◌, leb,
  ◌==◌, within, if◌then◌else◌, any,
}

-- The four octets, and the eight 16-bit segments, of an address.
pub record Ipv4Addr : Type 0 where
  pub o0 : ℕ
  pub o1 : ℕ
  pub o2 : ℕ
  pub o3 : ℕ

pub record Ipv6Addr : Type 0 where
  pub s0 : ℕ
  pub s1 : ℕ
  pub s2 : ℕ
  pub s3 : ℕ
  pub s4 : ℕ
  pub s5 : ℕ
  pub s6 : ℕ
  pub s7 : ℕ

pub data IpAddr : Type 0 where
  v4 : Ipv4Addr → IpAddr
  v6 : Ipv6Addr → IpAddr

pub is_blocked_ipv4 : Ipv4Addr → Bool
is_blocked_ipv4 a =
    a.o0 == 0
    || (a.o0 == 10
        || (a.o0 == 127
            || ((a.o0 == 169 && a.o1 == 254)
                || ((a.o0 == 172 && within 16 31 a.o1)
                    || ((a.o0 == 192 && a.o1 == 168)
                        || ((a.o0 == 192 && (a.o1 == 0 && (a.o2 == 0 || a.o2 == 2)))
                            || ((a.o0 == 198 && (a.o1 == 18 || a.o1 == 19))
                                || ((a.o0 == 100 && within 64 127 a.o1) || leb 224 a.o0))))))))

-- `Ipv6Addr::to_ipv4_mapped`: ::ffff:a.b.c.d
pub to_ipv4_mapped : Ipv6Addr → Option Ipv4Addr
to_ipv4_mapped a =
    if a.s0 == 0 && (a.s1 == 0 && (a.s2 == 0 && (a.s3 == 0 && (a.s4 == 0 && a.s5 == 0xffff))))
    then some (record { o0 = a.s6 / 256; o1 = a.s6 % 256; o2 = a.s7 / 256; o3 = a.s7 % 256 })
    else none

-- `is_unspecified` (::) and `is_loopback` (::1)
pub is_low : ℕ → Ipv6Addr → Bool
is_low last a =
    a.s0 == 0
    && (a.s1 == 0
        && (a.s2 == 0 && (a.s3 == 0 && (a.s4 == 0 && (a.s5 == 0 && (a.s6 == 0 && a.s7 == last))))))

pub is_blocked_ip : IpAddr → Bool
is_blocked_ip (v4 a) = is_blocked_ipv4 a
is_blocked_ip (v6 a) = elim (to_ipv4_mapped a) [
  | some b ↦ is_blocked_ipv4 b
  | none ↦
      if is_low 1 a || is_low 0 a
      then true
      else bit_and a.s0 0xfe00 == 0xfc00 || bit_and a.s0 0xffc0 == 0xfe80
]

-- What resolving a name gives: the resolver's own error, or addresses to connect to.
pub data Resolved : Type 0 where
  host_not_found : Resolved
  resolver_error : ℕ → Resolved
  addresses : List IpAddr → Resolved

-- `GuardedResolver::resolve`, on what the default resolver answered.
pub guarded_resolve : Bool → Resolved → Resolved
guarded_resolve allow_private (addresses addrs) =
    if not allow_private && any is_blocked_ip addrs then host_not_found else addresses addrs
guarded_resolve allow_private r = r
