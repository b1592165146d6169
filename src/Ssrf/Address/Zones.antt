-- ===== src/Ssrf/Address/Zones.antt =====
-- What a zone does to the guard (internal/platform/ssrf/ssrf.go).
use tenant_api_platform.Prelude.{ℕ, true, false, List, [], ◌∷◌, ◌≡◌, ◌≢◌, arith, none, any}
use tenant_api_platform.Prelude.Runes.{Runes}
use tenant_api_platform.Ssrf.Address.{v6, Prefix, p6, contains_addr, check_addr}

-- The unspecified address, which connects to this machine, and the IPv6 blocks of nonPublicPrefixes.
abbrev pub reopened : List Prefix
reopened =
    p6 0 0
    ∷ p6 32 0x64ff9b0000000000000000
    ∷ p6 80 0x64ff9b0001
    ∷ p6 64 0x100000000000000
    ∷ p6 96 0x20010db8
    ∷ []

-- The unspecified address and the addresses of the IPv6 prefixes that nonPublicPrefixes lists are
-- refused as they are, and let through with any zone behind them.
pub check_addr_zoned :
    (n : ℕ) (r : ℕ) (zone : Runes)
    → any (contains_addr (v6 n [])) reopened ≡ true
    → (check_addr false (v6 n []) ≢ none) × (check_addr false (v6 n (r ∷ zone)) ≡ none)
unfolding check_addr
check_addr_zoned n r zone h = ground arith
