-- ===== src/Ssrf/Address/Laws.antt =====
-- Which addresses a delivery may go to (internal/platform/ssrf/ssrf.go).
use tenant_api_platform.Prelude.{
  ℕ, ◌%◌, ◌^◌, Bool, true, false, List, [], ◌∷◌, ◌≡◌, ◌↔◌, arith, none, any, Bool-cases, inl, inr,
}
use tenant_api_platform.Audit.{is_empty}
use tenant_api_platform.Ssrf.Address.{
  Addr, v4, v6, Prefix, p4, p6, contains_addr, check_addr, check_unmapped, unmap, four_in_six,
}

-- The blocks of IPv4 that are refused, as CIDR prefixes.
abbrev pub closed_v4 : List Prefix
closed_v4 =
    p4 0 0
    ∷ p4 24 10
    ∷ p4 22 0x191
    ∷ p4 24 127
    ∷ p4 16 0xa9fe
    ∷ p4 20 0xac1
    ∷ p4 8 0xc00000
    ∷ p4 8 0xc00002
    ∷ p4 16 0xc0a8
    ∷ p4 17 0x6309
    ∷ p4 8 0xc63364
    ∷ p4 8 0xcb0071
    ∷ p4 28 0xe
    ∷ p4 28 0xf
    ∷ []

-- Those of IPv6. An IPv4 address in IPv6 form is judged as the IPv4 address.
abbrev pub closed_v6 : List Prefix
closed_v6 =
    p6 0 0
    ∷ p6 0 1
    ∷ p6 32 0x64ff9b0000000000000000
    ∷ p6 80 0x64ff9b0001
    ∷ p6 64 0x100000000000000
    ∷ p6 96 0x20010000
    ∷ p6 96 0x20010db8
    ∷ p6 112 0x2002
    ∷ p6 121 0x7e
    ∷ p6 118 0x3fa
    ∷ p6 120 0xff
    ∷ []

abbrev pub unzoned : Addr → Bool
unzoned (v4 n) = true
unzoned (v6 n zone) = is_empty zone

abbrev pub closed_prefixes : Addr → List Prefix
closed_prefixes (v4 n) = closed_v4
closed_prefixes (v6 n zone) = closed_v6

check_unmapped-v4 :
    (n : ℕ) → (check_unmapped false (v4 n) ≡ none) ↔ (any (contains_addr (v4 n)) closed_v4 ≡ false)
check_unmapped-v4 n = ground arith

check_unmapped-v6 :
    (n : ℕ)
    → four_in_six n ≡ false
    → (check_unmapped false (v6 n []) ≡ none) ↔ (any (contains_addr (v6 n [])) closed_v6 ≡ false)
check_unmapped-v6 n h = ground arith

-- An address without a zone is let through exactly when none of the closed prefixes of its family
-- holds it, an IPv4 address in IPv6 form being taken for the IPv4 address.
pub check_addr_iff :
    (a : Addr)
    → unzoned a ≡ true
    → (check_addr false a ≡ none)
      ↔ (any (contains_addr (unmap a)) (closed_prefixes (unmap a)) ≡ false)
unfolding check_addr
check_addr_iff (v4 n) h = check_unmapped-v4 n
check_addr_iff (v6 n (r ∷ zone)) h = cc
check_addr_iff (v6 n []) h = elim (Bool-cases (four_in_six n)) [
  | inl e ↦ rw e (check_unmapped-v4 (n % 2 ^ 32))
  | inr e ↦ rw e (check_unmapped-v6 n e)
]
