-- ===== src/Outbound/Address/Tests.antt =====
-- Addresses at the edges of the blocked ranges.
use allgres.Base.{true, false, ◌≡◌, refl, arith}
use allgres.Outbound.Address.{v6, Ipv6Addr, is_blocked_ipv4, to_ipv4_mapped, is_low, is_blocked_ip}
use allgres.Outbound.Address.Ranges.{ip, in_ranges, is_blocked_ip-in_ranges}

-- ::ffff:10.0.0.1
abbrev mapped : Ipv6Addr
mapped = record { s0 = 0; s1 = 0; s2 = 0; s3 = 0; s4 = 0; s5 = 0xffff; s6 = 0xa00; s7 = 1 }

mapped_blocked : is_blocked_ip (v6 mapped) ≡ true
unfolding is_blocked_ip to_ipv4_mapped is_blocked_ipv4 is_low
mapped_blocked = refl

edges : (is_blocked_ipv4 (ip 172 31 255 255) ≡ true) × (is_blocked_ipv4 (ip 172 32 0 0) ≡ false)
unfolding is_blocked_ipv4
edges = (refl, refl)

is_blocked_ip-in_ranges_example : is_blocked_ip (v6 mapped) ≡ in_ranges (v6 mapped)
is_blocked_ip-in_ranges_example =
    is_blocked_ip-in_ranges (v6 mapped) (omega arith, omega arith, omega arith)
