-- ===== src/Ssrf/Tests.antt =====
-- Targets of webhooks (internal/platform/ssrf/ssrf.go).
use tenant_api_platform.Prelude.{false, List, [], ◌∷◌, none, some, ◌≡◌, ◌≢◌, ◌↔◌, refl, All, any}
use tenant_api_platform.Prelude.Runes.{runes, runes_eq}
use tenant_api_platform.Ssrf.Address.{Addr, v4, v6, check_addr, contains_addr}
use tenant_api_platform.Ssrf.Address.Laws.{closed_v4, check_addr_iff}
use tenant_api_platform.Ssrf.Address.Zones.{check_addr_zoned}
use tenant_api_platform.Ssrf.Guard.{Guard, Resolved, valid, check_all, validate_url, dials}
use tenant_api_platform.Ssrf.Guard.Laws.{ConnectsAllowed, validate_url-dials}

-- 100.100.100.100, of carrier-grade NAT.
check_addr_iff_example :
    (check_addr false (v4 0x64646464) ≡ none)
    ↔ (any (contains_addr (v4 0x64646464)) closed_v4 ≡ false)
check_addr_iff_example = check_addr_iff (v4 0x64646464) refl

-- 64:ff9b::a9fe:a9fe, the metadata service behind NAT64.
check_addr_zoned_example :
    (check_addr false (v6 0x64ff9b0000000000000000a9fea9fe []) ≢ none)
    × (check_addr false (v6 0x64ff9b0000000000000000a9fea9fe (runes "lo")) ≡ none)
check_addr_zoned_example = check_addr_zoned 0x64ff9b0000000000000000a9fea9fe 0x6c (runes "o") refl

-- A host with two public addresses.
abbrev guard : Guard
guard = record {
  parse_url = λ raw. some (record { scheme = runes "https"; hostname = raw; port = [] });
  parse_addr = λ host. none;
  allow_loopback = false;
}

abbrev two_hosts : List Addr
two_hosts = v4 0x08080808 ∷ v4 0x01010101 ∷ []

abbrev target : Resolved
target = record { host = runes "a.b"; addrs = two_hosts; port = runes "443" }

target_valid : validate_url guard (λ host. some two_hosts) (runes "a.b") ≡ valid target
unfolding validate_url check_all check_addr runes_eq
target_valid = refl

validate_url-dials_example : All (ConnectsAllowed false) (dials target 3 0)
validate_url-dials_example =
    validate_url-dials guard (λ host. some two_hosts) (runes "a.b") target 3 0 target_valid
