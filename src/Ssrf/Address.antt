-- ===== src/Ssrf/Address.antt =====
-- Package net/netip as ssrf.go uses it, and checkAddr.
--
-- An IPv4 address is its 32-bit number, an IPv6 address its 128-bit number and its zone, which is
-- empty where there is none. Go's IsUnspecified, IsGlobalUnicast and Contains compare the zone too.
pub mod Laws
pub mod Zones
use tenant_api_platform.Prelude.{
  ℕ, ◌*◌, ◌/◌, ◌%◌, ◌^◌, Bool, true, false, not, ◌&&◌, ◌||◌, List, [], ◌∷◌, Option, none, some,
  ◌==◌, if◌then◌else◌, any,
}
use tenant_api_platform.Prelude.Runes.{Runes}
use tenant_api_platform.Audit.{is_empty}

pub data Addr : Type 0 where
  v4 : ℕ → Addr
  v6 : ℕ → Runes → Addr

-- The leading bits of an IPv6 address, as many as 128 less than the exponent.
abbrev pub four_in_six : ℕ → Bool
four_in_six n = n / 2 ^ 32 == 0xffff

abbrev pub unmap : Addr → Addr
unmap (v4 n) = v4 n
unmap (v6 n zone) = if four_in_six n then v4 (n % 2 ^ 32) else v6 n zone

abbrev pub is_loopback : Addr → Bool
is_loopback (v4 n) = n / 2 ^ 24 == 127
is_loopback (v6 n zone) = n == 1

abbrev pub is_private : Addr → Bool
is_private (v4 n) = n / 2 ^ 24 == 10 || n / 2 ^ 20 == 0xac1 || n / 2 ^ 16 == 0xc0a8
is_private (v6 n zone) = n / 2 ^ 121 == 0x7e

abbrev pub is_link_local_unicast : Addr → Bool
is_link_local_unicast (v4 n) = n / 2 ^ 16 == 0xa9fe
is_link_local_unicast (v6 n zone) = n / 2 ^ 118 == 0x3fa

abbrev pub is_link_local_multicast : Addr → Bool
is_link_local_multicast (v4 n) = n / 2 ^ 8 == 0xe00000
is_link_local_multicast (v6 n zone) = n / 2 ^ 120 == 0xff && n / 2 ^ 112 % 16 == 2

abbrev pub is_unspecified : Addr → Bool
is_unspecified (v4 n) = n == 0
is_unspecified (v6 n zone) = n == 0 && is_empty zone

abbrev pub is_multicast : Addr → Bool
is_multicast (v4 n) = n / 2 ^ 28 == 0xe
is_multicast (v6 n zone) = n / 2 ^ 120 == 0xff

abbrev pub is_broadcast : Addr → Bool
is_broadcast (v4 n) = n == 0xffffffff
is_broadcast (v6 n zone) = false

abbrev pub is_global_unicast : Addr → Bool
is_global_unicast a =
    not (is_unspecified a)
    && not (is_broadcast a)
    && not (is_loopback a)
    && not (is_multicast a)
    && not (is_link_local_unicast a)

-- isTransitionRange: 2002::/16 and 2001::/32.
abbrev pub is_transition_range : ℕ → Bool
is_transition_range n = n / 2 ^ 112 == 0x2002 || n / 2 ^ 96 == 0x20010000

-- A prefix is its family, the bits behind it, and its leading bits.
pub data Prefix : Type 0 where
  p4 p6 : ℕ → ℕ → Prefix

abbrev pub contains_addr : Addr → Prefix → Bool
contains_addr (v4 n) (p4 rest base) = n / 2 ^ rest == base
contains_addr (v6 n zone) (p6 rest base) = is_empty zone && n / 2 ^ rest == base
contains_addr _ _ = false

-- nonPublicPrefixes.
abbrev pub non_public_prefixes : List Prefix
non_public_prefixes =
    p4 22 0x191
    ∷ p4 8 0xc00000
    ∷ p4 8 0xc00002
    ∷ p4 17 0x6309
    ∷ p4 8 0xc63364
    ∷ p4 8 0xcb0071
    ∷ p4 28 0xf
    ∷ p6 32 0x64ff9b0000000000000000
    ∷ p6 80 0x64ff9b0001
    ∷ p6 64 0x100000000000000
    ∷ p6 96 0x20010db8
    ∷ []

-- Which rule of checkAddr refused the address; all of them are ErrBlocked.
pub data Rule : Type 0 where
  loopback private link_local unspecified multicast not_global four_in_six_form : Rule
  transition non_public : Rule

abbrev pub check_prefixes : Addr → Option Rule
check_prefixes a = if any (contains_addr a) non_public_prefixes then some non_public else none

abbrev pub check_ranges : Addr → Option Rule
check_ranges (v4 n) = check_prefixes (v4 n)
check_ranges (v6 n zone) =
    if four_in_six n
    then some four_in_six_form
    else if is_transition_range n
    then some transition
    else check_prefixes (v6 n zone)

abbrev pub check_unmapped : Bool → Addr → Option Rule
check_unmapped allow_loopback a =
    if is_loopback a
    then (if allow_loopback then none else some loopback)
    else if is_private a
    then some private
    else if is_link_local_unicast a || is_link_local_multicast a
    then some link_local
    else if is_unspecified a
    then some unspecified
    else if is_multicast a
    then some multicast
    else if not (is_global_unicast a)
    then some not_global
    else check_ranges a

-- checkAddr.
unfoldable pub check_addr : Bool → Addr → Option Rule
check_addr allow_loopback a = check_unmapped allow_loopback (unmap a)
