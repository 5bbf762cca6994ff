-- ===== src/Push/Address.antt =====
-- `isPublicIP`, with the tests of net/netip that it calls.
pub mod Reserved
use openbao_authorizer.Prelude.{
  ℕ, ◌+◌, ◌-◌, ◌*◌, ◌/◌, ◌<◌, ◌≤◌, Bool, true, false, ◌&&◌, ◌||◌, not, Option, none, some, List, [],
  ◌∷◌, any, if◌then◌else◌, eqb,
}

-- A net.IP: four bytes, sixteen bytes, or of another length, which netip.AddrFromSlice refuses.
pub data Ip : Type 0 where
  v4 : ℕ → Ip
  v6 : ℕ → Ip
  malformed : Ip

-- netip.Prefix: the address shifted to the bits that count, and the size of what is left.
abbrev pub within : ℕ → ℕ → ℕ → Bool
within start size n = eqb (n / size) (start / size)

-- a.b.c.d
abbrev pub quad : ℕ → ℕ → ℕ → ℕ → ℕ
quad a b c d = ((a * 256 + b) * 256 + c) * 256 + d

-- The IPv4 prefixes of `deniedPrefixes`.
unfoldable pub denied_v4 : ℕ → Bool
denied_v4 n =
    within (quad 100 64 0 0) 4194304 n
    || within (quad 192 0 0 0) 256 n
    || within (quad 192 0 2 0) 256 n
    || within (quad 198 18 0 0) 131072 n
    || within (quad 198 51 100 0) 256 n
    || within (quad 203 0 113 0) 256 n
    || within (quad 240 0 0 0) 268435456 n

-- Addr.IsPrivate
abbrev private_v4 : ℕ → Bool
private_v4 n =
    within (quad 10 0 0 0) 16777216 n
    || within (quad 172 16 0 0) 1048576 n
    || within (quad 192 168 0 0) 65536 n

abbrev loopback_v4 : ℕ → Bool
loopback_v4 n = within (quad 127 0 0 0) 16777216 n

abbrev link_local_v4 : ℕ → Bool
link_local_v4 n = within (quad 169 254 0 0) 65536 n

abbrev multicast_v4 : ℕ → Bool
multicast_v4 n = within (quad 224 0 0 0) 268435456 n

-- Addr.IsGlobalUnicast
abbrev global_unicast_v4 : ℕ → Bool
global_unicast_v4 n =
    not (eqb n 0)
    && not (eqb n (quad 255 255 255 255))
    && not (loopback_v4 n)
    && not (multicast_v4 n)
    && not (link_local_v4 n)

-- IsLinkLocalMulticast implies IsMulticast, and IsUnspecified is 0.
unfoldable pub public_v4 : ℕ → Bool
unfolding denied_v4
public_v4 n =
    not (
      not (global_unicast_v4 n)
      || private_v4 n
      || loopback_v4 n
      || link_local_v4 n
      || multicast_v4 n
      || eqb n 0)
    && not (denied_v4 n)

-- 2 ^ 64
abbrev pub half : ℕ
half = 18_446_744_073_709_551_616

-- An IPv6 prefix of at most 64 bits, by the upper half of the address.
abbrev within_v6 : ℕ → ℕ → ℕ → Bool
within_v6 start size n = within start size (n / half)

abbrev loopback_v6 : ℕ → Bool
loopback_v6 n = eqb n 1

abbrev multicast_v6 : ℕ → Bool
multicast_v6 n = within_v6 0xFF00_0000_0000_0000 0x0100_0000_0000_0000 n

abbrev link_local_v6 : ℕ → Bool
link_local_v6 n = within_v6 0xFE80_0000_0000_0000 0x0040_0000_0000_0000 n

abbrev private_v6 : ℕ → Bool
private_v6 n = within_v6 0xFC00_0000_0000_0000 0x0200_0000_0000_0000 n

unfoldable pub public_v6 : ℕ → Bool
public_v6 n =
    not (eqb n 0 || loopback_v6 n || multicast_v6 n || link_local_v6 n || private_v6 n)
    && not (within_v6 0x2001_0DB8_0000_0000 0x0000_0001_0000_0000 n)

-- ::ffff:a.b.c.d, which Unmap turns into a.b.c.d
unfoldable pub unmapped : ℕ → Option ℕ
unmapped n = if eqb (n / 4294967296) 65535 then some (n - 65535 * 4294967296) else none

unfoldable pub is_public_ip : Ip → Bool
unfolding public_v4 public_v6 unmapped
is_public_ip malformed = false
is_public_ip (v4 n) = public_v4 n
is_public_ip (v6 n) = elim (unmapped n) [ some m ↦ public_v4 m | none ↦ public_v6 n ]
