-- ===== src/Outbound/Address/Ranges.antt =====
-- The blocked addresses as the networks that the source's comments name.
use Prim.Native.Nat.{bit_and}
use allgres.Base.{
  ℕ, ◌+◌, ◌-◌, ◌*◌, ◌/◌, ◌^◌, ◌<◌, Bool, ◌&&◌, ◌||◌, Option, none, some, List, [], ◌∷◌, ◌≡◌, ◌∙◌,
  arith, leb, ◌==◌, within, any, Option-cases, inl, inr,
}
use allgres.Base.Bits.{and_low, bit_and-and_low}
use allgres.Outbound.Address.{
  IpAddr, Ipv4Addr, Ipv6Addr, v4, v6, is_blocked_ipv4, to_ipv4_mapped, is_low, is_blocked_ip,
}

-- The octets of an address are bytes.
pub record IsIpv4 (a : Ipv4Addr) : Type 0 where
  pub b0 : a.o0 < 256
  pub b1 : a.o1 < 256
  pub b2 : a.o2 < 256
  pub b3 : a.o3 < 256

-- The address as a number of 32 bits.
pub number : Ipv4Addr → ℕ
number a = a.o0 * 2 ^ 24 + a.o1 * 2 ^ 16 + a.o2 * 2 ^ 8 + a.o3

-- A network: its address, and how many bits of an address it leaves free.
pub record Network : Type 0 where
  pub address : Ipv4Addr
  pub free : ℕ

abbrev pub ip : ℕ → ℕ → ℕ → ℕ → Ipv4Addr
ip a b c d = record { o0 = a; o1 = b; o2 = c; o3 = d }

abbrev pub network : Ipv4Addr → ℕ → Network
network a length = record { address = a; free = 32 - length }

pub belongs : Ipv4Addr → Network → Bool
belongs a n = number a / 2 ^ n.free == number n.address / 2 ^ n.free

-- The comment on `is_blocked_ipv4`, in the usual notation.
abbrev pub blocked_networks : List Network
blocked_networks =
    network (ip 0 0 0 0) 8
    ∷ network (ip 10 0 0 0) 8
    ∷ network (ip 127 0 0 0) 8
    ∷ network (ip 169 254 0 0) 16
    ∷ network (ip 172 16 0 0) 12
    ∷ network (ip 192 168 0 0) 16
    ∷ network (ip 192 0 0 0) 24
    ∷ network (ip 192 0 2 0) 24
    ∷ network (ip 198 18 0 0) 15
    ∷ network (ip 100 64 0 0) 10
    ∷ network (ip 224 0 0 0) 3
    ∷ []

module _ (a : Ipv4Addr) (v : IsIpv4 a) where
  belongs-8 : (k : ℕ) → k < 256 → belongs a (network (ip k 0 0 0) 8) ≡ (a.o0 == k)
  unfolding belongs number
  belongs-8 k h = ground arith

  belongs-16 :
      (k l : ℕ) → k < 256 → l < 256 → belongs a (network (ip k l 0 0) 16) ≡ (a.o0 == k && a.o1 == l)
  unfolding belongs number
  belongs-16 k l h h' = ground arith

  belongs-24 :
      (m : ℕ)
      → m < 256
      → belongs a (network (ip 192 0 m 0) 24) ≡ (a.o0 == 192 && (a.o1 == 0 && a.o2 == m))
  unfolding belongs number
  belongs-24 m h = ground arith

  belongs-12 : belongs a (network (ip 172 16 0 0) 12) ≡ (a.o0 == 172 && within 16 31 a.o1)
  unfolding belongs number
  belongs-12 = ground arith

  belongs-15 : belongs a (network (ip 198 18 0 0) 15) ≡ (a.o0 == 198 && (a.o1 == 18 || a.o1 == 19))
  unfolding belongs number
  belongs-15 = ground arith

  belongs-10 : belongs a (network (ip 100 64 0 0) 10) ≡ (a.o0 == 100 && within 64 127 a.o1)
  unfolding belongs number
  belongs-10 = ground arith

  belongs-3 : belongs a (network (ip 224 0 0 0) 3) ≡ leb 224 a.o0
  unfolding belongs number
  belongs-3 = ground arith

  -- The IPv4 half.
  is_blocked_ipv4-networks : is_blocked_ipv4 a ≡ any (belongs a) blocked_networks
  unfolding is_blocked_ipv4
  is_blocked_ipv4-networks = ground (
    arith,
    belongs-8 0,
    belongs-8 10,
    belongs-8 127,
    belongs-16 169 254,
    belongs-12,
    belongs-16 192 168,
    belongs-24 0,
    belongs-24 2,
    belongs-15,
    belongs-10,
    belongs-3,
  )

-- A mask of k ones keeps the remainder by 2 ^ k, one digit at a time.
bit_and-fe00 : (a : ℕ) → a < 0x10000 → bit_and a 0xfe00 ≡ a / 512 * 512
unfolding and_low
bit_and-fe00 a h = bit_and-and_low 16 a 0xfe00 h ∙ omega arith

bit_and-ffc0 : (a : ℕ) → a < 0x10000 → bit_and a 0xffc0 ≡ a / 64 * 64
unfolding and_low
bit_and-ffc0 a h = bit_and-and_low 16 a 0xffc0 h ∙ omega arith

-- What an IPv6 address that stands for no IPv4 address is refused for: it is :: or ::1, or lies in
-- fc00::/7 or fe80::/10.
abbrev pub in_blocked_ipv6 : Ipv6Addr → Bool
in_blocked_ipv6 a =
    is_low 1 a || (is_low 0 a || (within 0xfc00 0xfdff a.s0 || within 0xfe80 0xfebf a.s0))

abbrev pub blocked_ipv6 : Ipv6Addr → Option Ipv4Addr → Bool
blocked_ipv6 a none = in_blocked_ipv6 a
blocked_ipv6 a (some b) = any (belongs b) blocked_networks

mapped-IsIpv4 :
    (a : Ipv6Addr) (b : Ipv4Addr)
    → a.s6 < 0x10000
    → a.s7 < 0x10000
    → to_ipv4_mapped a ≡ some b
    → IsIpv4 b
unfolding to_ipv4_mapped
mapped-IsIpv4 a b h6 h7 e = ground arith

-- The IPv6 half.
is_blocked_ip-ipv6 :
    (a : Ipv6Addr)
    → a.s0 < 0x10000
    → a.s6 < 0x10000
    → a.s7 < 0x10000
    → is_blocked_ip (v6 a) ≡ blocked_ipv6 a (to_ipv4_mapped a)
unfolding is_blocked_ip
is_blocked_ip-ipv6 a h0 h6 h7 = elim (Option-cases (to_ipv4_mapped a)) [
  | inl e ↦ rw (e, is_blocked_ip) (ground (arith, bit_and-fe00 a.s0 h0, bit_and-ffc0 a.s0 h0))
  | inr (b, e) ↦ rw (e, is_blocked_ip) (is_blocked_ipv4-networks b (mapped-IsIpv4 a b h6 h7 e))
]

-- The octets of an address are bytes, and its segments have 16 bits.
abbrev pub IsAddr : IpAddr → Type 0
IsAddr (v4 a) = IsIpv4 a
IsAddr (v6 a) = (a.s0 < 0x10000) × (a.s6 < 0x10000) × (a.s7 < 0x10000)

abbrev pub in_ranges : IpAddr → Bool
in_ranges (v4 a) = any (belongs a) blocked_networks
in_ranges (v6 a) = blocked_ipv6 a (to_ipv4_mapped a)

-- An IPv4 address is blocked exactly if it lies in one of the blocked networks; an IPv6 address
-- exactly if the IPv4 address that it maps does, or, where it maps none, if it is in one of the IPv6
-- ranges; for addresses of bytes, or of 16-bit segments.
pub is_blocked_ip-in_ranges : (a : IpAddr) → IsAddr a → is_blocked_ip a ≡ in_ranges a
unfolding is_blocked_ip
is_blocked_ip-in_ranges (v4 a) h = is_blocked_ipv4-networks a h
is_blocked_ip-in_ranges (v6 a) (h0, h6, h7) = is_blocked_ip-ipv6 a h0 h6 h7
