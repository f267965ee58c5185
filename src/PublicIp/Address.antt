-- ===== src/PublicIp/Address.antt =====
-- src/public_ip.rs: which addresses may be published.
pub mod Blocks
pub mod Blocks6
use Prim.Native.Nat.{bit_and}
use cirrusync.Prelude.{ℕ, Bool, true, false, ◌&&◌, ◌||◌, not, leb, ◌==◌, within, if◌then◌else◌}
use cirrusync.PublicIp.{Ipv4Addr, Ipv6Addr, IpAddr, v4, v6}

-- The first ladder of tests: blocks known by their first two octets.
reserved_by_prefix : ℕ → ℕ → Bool
reserved_by_prefix a b =
    a == 0
    || a == 10
    || a == 127
    || leb 224 a
    || (a == 100 && within 64 127 b)
    || (a == 169 && b == 254)
    || (a == 172 && within 16 31 b)
    || (a == 192 && b == 168)

-- The second one: protocol assignments, TEST-NETs, 6to4 relays and benchmarking.
reserved_assignment : ℕ → ℕ → ℕ → Bool
reserved_assignment a b c =
    (a == 192 && b == 0 && (c == 0 || c == 2))
    || (a == 192 && b == 88 && c == 99)
    || (a == 192 && b == 31 && c == 196)
    || (a == 192 && b == 52 && c == 193)
    || (a == 192 && b == 175 && c == 48)
    || (a == 198 && (b == 18 || b == 19))
    || (a == 198 && b == 51 && c == 100)
    || (a == 203 && b == 0 && c == 113)

pub is_public_ipv4 : Ipv4Addr → Bool
unfolding reserved_by_prefix reserved_assignment
is_public_ipv4 x =
    if reserved_by_prefix x.a x.b
    then false
    else if reserved_assignment x.a x.b x.c
    then false
    else true

reserved_ipv6 : ℕ → ℕ → ℕ → Bool
reserved_ipv6 first second third =
    (first == 0x2001 && (leb second 0x01ff || second == 0x0db8))
    || first == 0x2002
    || (first == 0x2620 && second == 0x004f && third == 0x8000)
    || first == 0x3ffe
    || (first == 0x3fff && bit_and second 0xf000 == 0)

pub is_public_ipv6 : Ipv6Addr → Bool
unfolding reserved_ipv6
is_public_ipv6 x =
    if not (bit_and x.s0 0xe000 == 0x2000)
    then false
    else if reserved_ipv6 x.s0 x.s1 x.s2
    then false
    else true

unfoldable pub is_public_address : IpAddr → Bool
unfolding is_public_ipv4 is_public_ipv6
is_public_address (v4 x) = is_public_ipv4 x
is_public_address (v6 x) = is_public_ipv6 x
