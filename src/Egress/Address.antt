-- ===== src/Egress/Address.antt =====
-- The classes of IP addresses: `IpClass`, `classify_v4`, `classify_v6` and `classify` of
-- crates/mcpdef-transport/src/egress.rs.
use Prim.Native.Nat.{bit_and}
use mcpdef.Prelude.{ℕ, Option, none, some, Bool, ◌&&◌, ◌||◌, ◌==◌, leb, ◌/◌, ◌%◌, if◌then◌else◌}

pub data IpClass : Type 0 where
  link_local unspecified special_use loopback private public : IpClass

-- An IPv4 address by its octets, an IPv6 address by its segments.
pub record Ipv4 : Type 0 where
  pub a : ℕ
  pub b : ℕ
  pub c : ℕ
  pub d : ℕ

pub record Ipv6 : Type 0 where
  pub s0 : ℕ
  pub s1 : ℕ
  pub s2 : ℕ
  pub s3 : ℕ
  pub s4 : ℕ
  pub s5 : ℕ
  pub s6 : ℕ
  pub s7 : ℕ

pub data IpAddr : Type 0 where
  v4 : Ipv4 → IpAddr
  v6 : Ipv6 → IpAddr

-- The tests of the standard library's `Ipv4Addr`.
abbrev pub is_unspecified_v4 : Ipv4 → Bool
is_unspecified_v4 ip = ip.a == 0 && ip.b == 0 && ip.c == 0 && ip.d == 0

abbrev pub is_broadcast : Ipv4 → Bool
is_broadcast ip = ip.a == 255 && ip.b == 255 && ip.c == 255 && ip.d == 255

abbrev pub is_private : Ipv4 → Bool
is_private ip =
    ip.a == 10 || (ip.a == 172 && (leb 16 ip.b && leb ip.b 31)) || (ip.a == 192 && ip.b == 168)

abbrev pub is_multicast_v4 : Ipv4 → Bool
is_multicast_v4 ip = leb 224 ip.a && leb ip.a 239

abbrev pub is_special_v4 : Ipv4 → Bool
is_special_v4 ip =
    ip.a == 0
    || (ip.a == 192 && ip.b == 0 && ip.c == 0)
    || (ip.a == 192 && ip.b == 0 && ip.c == 2)
    || (ip.a == 198 && (ip.b == 18 || ip.b == 19))
    || (ip.a == 198 && ip.b == 51 && ip.c == 100)
    || (ip.a == 203 && ip.b == 0 && ip.c == 113)
    || is_multicast_v4 ip
    || leb 240 ip.a

unfoldable pub classify_v4 : Ipv4 → IpClass
classify_v4 ip =
    if is_unspecified_v4 ip
    then unspecified
    else if ip.a == 127
    then loopback
    else if (ip.a == 169 && ip.b == 254) || is_broadcast ip
    then link_local
    else if is_private ip
    then private
    else if ip.a == 100 && (leb 64 ip.b && leb ip.b 127)
    then private
    else if is_special_v4 ip
    then special_use
    else public

-- The first five segments are zero.
abbrev pub starts_zero : Ipv6 → Bool
starts_zero ip = ip.s0 == 0 && ip.s1 == 0 && ip.s2 == 0 && ip.s3 == 0 && ip.s4 == 0

-- `to_ipv4_mapped`.
abbrev pub to_ipv4_mapped : Ipv6 → Option Ipv4
to_ipv4_mapped ip =
    if starts_zero ip && ip.s5 == 65535
    then some record { a = ip.s6 / 256; b = ip.s6 % 256; c = ip.s7 / 256; d = ip.s7 % 256 }
    else none

abbrev pub is_special_v6 : Ipv6 → Bool
is_special_v6 ip =
    bit_and ip.s0 65280 == 65280
    || (ip.s0 == 8193 && ip.s1 == 3512)
    || (ip.s0 == 16383 && bit_and ip.s1 61440 == 0)
    || (ip.s0 == 8193 && ip.s1 == 2 && ip.s2 == 0)
    || ip.s0 == 24320
    || (ip.s0 == 256 && ip.s1 == 0 && ip.s2 == 0)
    || (ip.s0 == 100 && ip.s1 == 65435 && ip.s2 == 1)

abbrev pub classify_unmapped : Ipv6 → IpClass
classify_unmapped ip =
    if starts_zero ip && ip.s5 == 0 && ip.s6 == 0 && ip.s7 == 0
    then unspecified
    else if starts_zero ip && ip.s5 == 0 && ip.s6 == 0 && ip.s7 == 1
    then loopback
    else if bit_and ip.s0 65472 == 65152
    then link_local
    else if bit_and ip.s0 65024 == 64512
    then private
    else if is_special_v6 ip
    then special_use
    else public

abbrev pub classify_mapped : Ipv6 → Option Ipv4 → IpClass
classify_mapped ip (some inner) = classify_v4 inner
classify_mapped ip none = classify_unmapped ip

unfoldable pub classify_v6 : Ipv6 → IpClass
unfolding classify_v4
classify_v6 ip = classify_mapped ip (to_ipv4_mapped ip)

abbrev pub classify : IpAddr → IpClass
classify (v4 ip) = classify_v4 ip
classify (v6 ip) = classify_v6 ip
