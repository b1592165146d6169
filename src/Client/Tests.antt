-- ===== src/Client/Tests.antt =====
-- Requests through a proxy (internal/platform/clientip/clientip.go).
use tenant_api_platform.Prelude.{
  ℕ, true, false, Option, none, some, List, [], ◌∷◌, ◌++◌, ◌==◌, ◌≡◌, refl,
}
use tenant_api_platform.Prelude.Runes.{
  Runes, runes, trim_space, trim_left, trim_right, cons_trimmed, is_space,
}
use tenant_api_platform.Client.{
  Net, Forwarding, is_trusted, host_only, entries_of, split_commas, before_semicolon, cut_for,
  trim_left_set, trim_right_set, parse_forwarded_address, client_ip,
}
use tenant_api_platform.Client.Laws.{client_ip-nearest}

-- An address is one digit.
abbrev digit : Runes → Option ℕ
digit (r ∷ []) = some r
digit _ = none

abbrev net : Net
net = record {
  parse_ip = digit;
  parse_cidr = λ s. none;
  single = λ ip. ip;
  contains = λ network ip. network == ip;
  split_host_port = λ s. none;
}

-- The proxy is 9. The client 5 sends a Forwarded header that names 7; the proxy appends 5 to
-- X-Forwarded-For and leaves the other header alone.
abbrev spoofed : Forwarding
spoofed = record {
  remote_addr = runes "9";
  x_forwarded_for = runes "5" ∷ [];
  forwarded = runes "for=7;proto=https" ∷ [];
}

abbrev proxies : List ℕ
proxies = 0x39 ∷ []

peer : is_trusted net proxies (host_only net (runes "9")) ≡ true
unfolding is_trusted host_only trim_left_set trim_right_set trim_space trim_left trim_right
    cons_trimmed is_space
peer = refl

-- The client 5 claims to be 7; the proxy 9 appends 5, and the next one appends 9.
abbrev appended : Forwarding
appended = record {
  remote_addr = runes "9";
  x_forwarded_for = runes "7, 5, 9" ∷ [];
  forwarded = [];
}

hops :
    entries_of appended.x_forwarded_for ++ entries_of appended.forwarded
    ≡ (runes "7" ∷ []) ++ runes "5" ∷ runes "9" ∷ []
unfolding entries_of split_commas trim_space trim_left trim_right cons_trimmed is_space
hops = refl

client_read : parse_forwarded_address net (runes "5") ≡ some (runes "5")
unfolding parse_forwarded_address host_only before_semicolon cut_for trim_left_set trim_right_set
    trim_space trim_left trim_right cons_trimmed is_space
client_read = refl

proxy_read : parse_forwarded_address net (runes "9") ≡ some (runes "9")
unfolding parse_forwarded_address host_only before_semicolon cut_for trim_left_set trim_right_set
    trim_space trim_left trim_right cons_trimmed is_space
proxy_read = refl

proxy_trusted : is_trusted net proxies (runes "9") ≡ true
unfolding is_trusted
proxy_trusted = refl

client_unknown : is_trusted net proxies (runes "5") ≡ false
unfolding is_trusted
client_unknown = refl

client_ip-nearest_example : client_ip net proxies appended ≡ runes "5"
client_ip-nearest_example =
    client_ip-nearest net proxies appended (runes "7" ∷ []) (runes "9" ∷ []) (runes "5") (runes "5")
      peer hops ((runes "9", proxy_read, proxy_trusted), tt) client_read client_unknown
