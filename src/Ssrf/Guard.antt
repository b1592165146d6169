-- ===== src/Ssrf/Guard.antt =====
-- internal/platform/ssrf/ssrf.go: Validate, Client and ValidateEndpointURL.
--
-- url.Parse, netip.ParseAddr and the resolver are parameters. What the resolver answers may differ
-- from one lookup to the next, so a lookup is an argument of each call. A dial is the address and the
-- port that it connects to.
pub mod Laws
use tenant_api_platform.Prelude.{
  ℕ, zero, suc, ◌+◌, ◌-◌, ◌%◌, Bool, true, false, not, ◌&&◌, ◌||◌, List, [], ◌∷◌, Option, none,
  some, ◌==◌, leb, if◌then◌else◌, length,
}
use tenant_api_platform.Prelude.Runes.{Runes, runes, runes_eq}
use tenant_api_platform.Audit.{is_empty}
use tenant_api_platform.Ssrf.Address.{Addr, Rule, check_addr}

-- What Validate reads of a URL.
pub record Url : Type 0 where
  pub scheme : Runes
  pub hostname : Runes
  pub port : Runes

pub record Guard : Type 0 where
  pub parse_url : Runes → Option Url
  pub parse_addr : Runes → Option Addr
  pub allow_loopback : Bool

-- LookupNetIP's answer for a host: an error, or addresses.
abbrev pub Lookup : Type 0
Lookup = Runes → Option (List Addr)

pub record Resolved : Type 0 where
  pub host : Runes
  pub addrs : List Addr
  pub port : Runes

pub data TargetVerdict : Type 0 where
  unparsed bad_scheme no_host no_addresses : TargetVerdict
  blocked : Rule → TargetVerdict
  valid : Resolved → TargetVerdict

abbrev pub port_of : Url → Runes
port_of u =
    if not (is_empty u.port)
    then u.port
    else if runes_eq u.scheme (runes "https")
    then runes "443"
    else runes "80"

abbrev first_rule : Option Rule → Option Rule → Option Rule
first_rule none later = later
first_rule (some rule) later = some rule

-- The loop over the addresses: the first that is refused decides.
unfoldable pub check_all : Bool → List Addr → Option Rule
check_all allow_loopback [] = none
check_all allow_loopback (a ∷ rest) =
    first_rule (check_addr allow_loopback a) (check_all allow_loopback rest)

abbrev pub or_blocked : Resolved → Option Rule → TargetVerdict
or_blocked r none = valid r
or_blocked r (some rule) = blocked rule

abbrev pub check_found : Guard → Url → List Addr → TargetVerdict
check_found g u addrs =
    or_blocked (record { host = u.hostname; addrs = addrs; port = port_of u })
      (check_all g.allow_loopback addrs)

abbrev pub check_looked_up : Guard → Url → Option (List Addr) → TargetVerdict
check_looked_up g u none = no_addresses
check_looked_up g u (some []) = no_addresses
check_looked_up g u (some (a ∷ rest)) = check_found g u (a ∷ rest)

abbrev pub check_host : Guard → Lookup → Url → Option Addr → TargetVerdict
check_host g lookup u (some a) = check_found g u (a ∷ [])
check_host g lookup u none = check_looked_up g u (lookup u.hostname)

abbrev pub check_url : Guard → Lookup → Option Url → TargetVerdict
check_url g lookup none = unparsed
check_url g lookup (some u) =
    if not (runes_eq u.scheme (runes "http") || runes_eq u.scheme (runes "https"))
    then bad_scheme
    else if is_empty u.hostname
    then no_host
    else check_host g lookup u (g.parse_addr u.hostname)

-- Validate.
unfoldable pub validate_url : Guard → Lookup → Runes → TargetVerdict
validate_url g lookup raw = check_url g lookup (g.parse_url raw)

unfoldable pub nth_addr : List Addr → ℕ → Option Addr
nth_addr [] n = none
nth_addr (a ∷ more) zero = some a
nth_addr (a ∷ more) (suc n) = nth_addr more n

-- DialContext of the client's transport, on its `next`: whatever address it is asked for.
unfoldable pub dial : Resolved → ℕ → Option Addr × ℕ
dial target next =
    if length target.addrs == 0
    then (none, next)
    else (nth_addr target.addrs (next % length target.addrs), next + 1)

-- The connections of a client, as many as are asked for.
unfoldable pub dials : Resolved → ℕ → ℕ → List (Option Addr)
dials target zero next = []
dials target (suc n) next = (dial target next).0 ∷ dials target n (dial target next).1

-- CheckRedirect: no redirect is followed, and one to a refused target is an error.
pub data Redirect : Type 0 where
  too_many use_last_response : Redirect
  refused_target : TargetVerdict → Redirect

abbrev pub on_target : TargetVerdict → Redirect
on_target (valid r) = use_last_response
on_target v = refused_target v

unfoldable pub check_redirect : Guard → Lookup → ℕ → Runes → Redirect
check_redirect g lookup hops raw =
    if leb 2 hops then too_many else on_target (validate_url g lookup raw)

-- ValidateEndpointURL: whether there is no error.
abbrev pub is_valid : TargetVerdict → Bool
is_valid (valid r) = true
is_valid v = false

unfoldable pub validate_endpoint_url : Guard → Lookup → Runes → Bool
validate_endpoint_url g lookup raw = is_valid (validate_url g lookup raw)
