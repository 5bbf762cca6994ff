-- ===== src/Push/Address/Reserved.antt =====
-- No public address is in a reserved range.
use openbao_authorizer.Prelude.{
  ℕ, ◌/◌, ◌<◌, ◌≡◌, ◌⊎◌, inl, inr, true, none, some, List, [], ◌∷◌, All, IsOutside, Option-cases,
  arith,
}
use openbao_authorizer.Push.Address.{
  Ip, v4, v6, malformed, quad, denied_v4, public_v4, public_v6, half, is_public_ip, unmapped,
}

-- The IPv4 ranges that do not lead to the public Internet, by their first and last address: private
-- networks, shared address space, loopback, link-local, protocol assignments,
-- documentation, benchmarks, multicast, and what is reserved.
abbrev pub reserved : List (ℕ × ℕ)
reserved =
    (quad 10 0 0 0, quad 10 255 255 255)
    ∷ (quad 100 64 0 0, quad 100 127 255 255)
    ∷ (quad 127 0 0 0, quad 127 255 255 255)
    ∷ (quad 169 254 0 0, quad 169 254 255 255)
    ∷ (quad 172 16 0 0, quad 172 31 255 255)
    ∷ (quad 192 0 0 0, quad 192 0 0 255)
    ∷ (quad 192 0 2 0, quad 192 0 2 255)
    ∷ (quad 192 168 0 0, quad 192 168 255 255)
    ∷ (quad 198 18 0 0, quad 198 19 255 255)
    ∷ (quad 198 51 100 0, quad 198 51 100 255)
    ∷ (quad 203 0 113 0, quad 203 0 113 255)
    ∷ (quad 224 0 0 0, quad 255 255 255 255)
    ∷ []

public_v4-IsOutside : (n : ℕ) → public_v4 n ≡ true → (0 < n) × All (IsOutside n) reserved
unfolding public_v4 denied_v4
public_v4-IsOutside n h = (
  ground arith,
  (
    ground arith,
    (
      ground arith,
      (
        ground arith,
        (
          ground arith,
          (
            ground arith,
            (
              ground arith,
              (
                ground arith,
                (ground arith, (ground arith, (ground arith, (ground arith, (ground arith, tt))))),
              ),
            ),
          ),
        ),
      ),
    ),
  ),
)

-- The upper halves of the IPv6 ranges that do not lead to the public Internet: unique local,
-- link-local, multicast and documentation.
abbrev pub reserved_v6 : List (ℕ × ℕ)
reserved_v6 =
    (0xFC00_0000_0000_0000, 0xFDFF_FFFF_FFFF_FFFF)
    ∷ (0xFE80_0000_0000_0000, 0xFEBF_FFFF_FFFF_FFFF)
    ∷ (0xFF00_0000_0000_0000, 0xFFFF_FFFF_FFFF_FFFF)
    ∷ (0x2001_0DB8_0000_0000, 0x2001_0DB8_FFFF_FFFF)
    ∷ []

public_v6-IsOutside :
    (n : ℕ) → public_v6 n ≡ true → (1 < n) × All (IsOutside (n / half)) reserved_v6
unfolding public_v6
public_v6-IsOutside n h =
    (ground arith, (ground arith, (ground arith, (ground arith, (ground arith, tt)))))

-- What an address must be to be dialed: outside the reserved ranges, by its IPv4 address if it is
-- mapped to one, not the unspecified address 0, and not the loopback of IPv6.
abbrev pub IsRoutable : Ip → Type 0
IsRoutable malformed = ⊥
IsRoutable (v4 n) = (0 < n) × All (IsOutside n) reserved
IsRoutable (v6 n) =
    ((m : ℕ) × (unmapped n ≡ some m) × (0 < m) × All (IsOutside m) reserved)
    ⊎ ((unmapped n ≡ none) × (1 < n) × All (IsOutside (n / half)) reserved_v6)

pub is_public_ip-IsRoutable : (ip : Ip) → is_public_ip ip ≡ true → IsRoutable ip
unfolding is_public_ip
is_public_ip-IsRoutable malformed h = cc
is_public_ip-IsRoutable (v4 n) h = public_v4-IsOutside n h
is_public_ip-IsRoutable (v6 n) h = elim (Option-cases (unmapped n)) [
  | inl e ↦ let (p, q) = public_v6-IsOutside n (rw (e, is_public_ip) at h) in inr (e, p, q)
  | inr (m, e) ↦
      let (positive, outside) = public_v4-IsOutside m (rw (e, is_public_ip) at h) in
      inl (m, e, positive, outside)
]
