-- ===== src/Client.antt =====
-- internal/platform/clientip/clientip.go: the address that a request is attributed to.
--
-- Package net is a parameter: addresses and networks are numbers, `parse_ip` is net.ParseIP,
-- `parse_cidr` net.ParseCIDR, `single` the network of one address, `contains` IPNet.Contains, and
-- `split_host_port` the host of net.SplitHostPort.
pub mod Laws
pub mod Tests
use tenant_api_platform.Prelude.{
  ℕ, Bool, true, false, not, ◌&&◌, ◌||◌, Option, none, some, List, [], ◌∷◌, ◌++◌, ◌==◌,
  if◌then◌else◌, any, select,
}
use tenant_api_platform.Prelude.Runes.{Runes, runes, trim_space}
use tenant_api_platform.Audit.{is_some, is_empty}

pub record Net : Type 0 where
  pub parse_ip : Runes → Option ℕ
  pub parse_cidr : Runes → Option ℕ
  pub single : ℕ → ℕ
  pub contains : ℕ → ℕ → Bool
  pub split_host_port : Runes → Option Runes

-- The request as far as it is read: the socket peer, and the values of the two headers in order.
pub record Forwarding : Type 0 where
  pub remote_addr : Runes
  pub x_forwarded_for : List Runes
  pub forwarded : List Runes

abbrev network_or_host : Net → Option ℕ → Option ℕ → Option ℕ
network_or_host net (some network) ip = some network
network_or_host net none (some ip) = some (net.single ip)
network_or_host net none none = none

abbrev add_network : Option ℕ → Option (List ℕ) → Option (List ℕ)
add_network (some network) (some rest) = some (network ∷ rest)
add_network _ _ = none

-- New. An entry that is neither a network nor an address is an error.
unfoldable pub new_resolver : Net → List Runes → Option (List ℕ)
new_resolver net [] = some []
new_resolver net (cidr ∷ cidrs) =
    let rest = new_resolver net cidrs in
    let entry = trim_space cidr in
    if is_empty entry
    then rest
    else add_network (network_or_host net (net.parse_cidr entry) (net.parse_ip entry)) rest

abbrev pub trusted_ip : Net → List ℕ → Option ℕ → Bool
trusted_ip net trusted none = false
trusted_ip net trusted (some ip) = any (λ network. net.contains network ip) trusted

-- isTrusted.
unfoldable pub is_trusted : Net → List ℕ → Runes → Bool
is_trusted net trusted ip = if is_empty ip then false else trusted_ip net trusted (net.parse_ip ip)

-- strings.TrimLeft and strings.TrimRight of a set of runes.
unfoldable pub trim_left_set : (ℕ → Bool) → Runes → Runes
trim_left_set inside [] = []
trim_left_set inside (r ∷ s) = let rest = trim_left_set inside s in if inside r then rest else r ∷ s

abbrev cons_outside : (ℕ → Bool) → ℕ → Runes → Runes
cons_outside inside r [] = if inside r then [] else r ∷ []
cons_outside inside r (x ∷ s) = r ∷ x ∷ s

unfoldable pub trim_right_set : (ℕ → Bool) → Runes → Runes
trim_right_set inside [] = []
trim_right_set inside (r ∷ s) = cons_outside inside r (trim_right_set inside s)

abbrev pub trim_set : (ℕ → Bool) → Runes → Runes
trim_set inside s = trim_right_set inside (trim_left_set inside s)

abbrev pub host_or_bare : Runes → Option Runes → Runes
host_or_bare addr (some host) = host
host_or_bare addr none = trim_set (λ r. r == 0x5b || r == 0x5d) addr

-- hostOnly.
unfoldable pub host_only : Net → Runes → Runes
host_only net s =
    let addr = trim_space s in
    if is_empty addr then [] else host_or_bare addr (net.split_host_port addr)

abbrev pub cons_part : ℕ → List Runes → List Runes
cons_part r [] = (r ∷ []) ∷ []
cons_part r (part ∷ parts) = (r ∷ part) ∷ parts

-- strings.Split(value, ",").
unfoldable pub split_commas : Runes → List Runes
split_commas [] = [] ∷ []
split_commas (r ∷ s) =
    let rest = split_commas s in if r == 0x2c then [] ∷ rest else cons_part r rest

abbrev pub trimmed_parts : List Runes → List Runes
trimmed_parts [] = []
trimmed_parts (part ∷ parts) =
    let rest = trimmed_parts parts in
    if is_empty (trim_space part) then rest else trim_space part ∷ rest

-- The entries of one header, over all its values.
unfoldable pub entries_of : List Runes → List Runes
entries_of [] = []
entries_of (value ∷ values) = trimmed_parts (split_commas value) ++ entries_of values

abbrev pub reversed_onto : List Runes → List Runes → List Runes
reversed_onto [] acc = acc
reversed_onto (x ∷ xs) acc = reversed_onto xs (x ∷ acc)

-- xffChain.
unfoldable pub xff_chain : Forwarding → List Runes
xff_chain req = reversed_onto (entries_of req.x_forwarded_for ++ entries_of req.forwarded) []

-- The entry up to its first semicolon.
unfoldable pub before_semicolon : Runes → Runes
before_semicolon [] = []
before_semicolon (r ∷ s) = let rest = before_semicolon s in if r == 0x3b then [] else r ∷ rest

abbrev after_for : Runes → Option Runes
after_for (f ∷ o ∷ r ∷ e ∷ s) =
    if f == 0x66 && o == 0x6f && r == 0x72 && e == 0x3d then some s else none
after_for _ = none

abbrev first_of : Option Runes → Option Runes → Option Runes
first_of (some s) later = some s
first_of none later = later

-- strings.Cut(entry, "for="): what comes after, where it is found.
unfoldable pub cut_for : Runes → Option Runes
cut_for [] = none
cut_for (r ∷ s) = let later = cut_for s in first_of (after_for (r ∷ s)) later

abbrev or_whole : Runes → Option Runes → Runes
or_whole entry (some after) = after
or_whole entry none = entry

abbrev pub address_of : Runes → Runes
address_of entry =
    let front = before_semicolon entry in
    trim_set (λ r. r == 0x22) (trim_space (or_whole front (cut_for front)))

abbrev pub if_parsed : Net → Runes → Option Runes
if_parsed net host = if is_some (net.parse_ip host) then some host else none

-- parseForwardedAddress.
unfoldable pub parse_forwarded_address : Net → Runes → Option Runes
parse_forwarded_address net raw =
    let entry = trim_space raw in
    if is_empty entry then none else if_parsed net (host_only net (address_of entry))

abbrev pub hop : Net → List ℕ → Runes → Runes → Option Runes → Runes
hop net trusted peer rest none = peer
hop net trusted peer rest (some ip) = if is_trusted net trusted ip then rest else ip

-- The loop of ClientIP.
unfoldable pub walk : Net → List ℕ → Runes → List Runes → Runes
walk net trusted peer [] = peer
walk net trusted peer (raw ∷ chain) =
    hop net trusted peer (walk net trusted peer chain) (parse_forwarded_address net raw)

-- The method ClientIP.
unfoldable pub client_ip : Net → List ℕ → Forwarding → Runes
client_ip net trusted req =
    let peer = host_only net req.remote_addr in
    if is_trusted net trusted peer then walk net trusted peer (xff_chain req) else peer
