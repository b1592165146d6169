-- ===== src/Ssrf/Guard/Laws.antt =====
-- Where a delivery connects to (internal/platform/ssrf/ssrf.go).
use tenant_api_platform.Prelude.{
  ℕ, zero, suc, ◌%◌, ◌<◌, Bool, false, not, ◌||◌, List, [], ◌∷◌, Option, none, some, Option-cases,
  ◌≡◌, ◌≢◌, arith, ◌==◌, length, All, Bool-cases, inl, inr,
}
use tenant_api_platform.Prelude.Runes.{Runes, runes, runes_eq}
use tenant_api_platform.Audit.{is_empty}
use tenant_api_platform.Ssrf.Address.{Addr, check_addr}
use tenant_api_platform.Ssrf.Guard.{
  Guard, Url, Lookup, Resolved, valid, check_all, check_found, check_looked_up, check_host,
  check_url, validate_url, nth_addr, dial, dials,
}

abbrev pub Allowed : Bool → Addr → Type 0
Allowed allow_loopback a = check_addr allow_loopback a ≡ none

-- A dial that connects, and to a checked address.
abbrev pub ConnectsAllowed : Bool → Option Addr → Type 0
ConnectsAllowed allow_loopback none = ⊥
ConnectsAllowed allow_loopback (some a) = Allowed allow_loopback a

check_all-All :
    (allow : Bool) (addrs : List Addr) → check_all allow addrs ≡ none → All (Allowed allow) addrs
unfolding check_all
check_all-All allow [] h = tt
check_all-All allow (a ∷ rest) h = elim (Option-cases (check_addr allow a)) [
  | inl e ↦ (e, check_all-All allow rest (ground (arith, e)))
  | inr (rule, e) ↦ absurd (ground (arith, e))
]

-- A target is valid only with addresses, all of them checked.
IsAllowed : Guard → Resolved → Type 0
IsAllowed g r = All (Allowed g.allow_loopback) r.addrs × (length r.addrs ≢ 0)

check_found-IsAllowed :
    (g : Guard) (u : Url) (a : Addr) (rest : List Addr) (r : Resolved)
    → check_found g u (a ∷ rest) ≡ valid r
    → IsAllowed g r
unfolding IsAllowed
check_found-IsAllowed g u a rest r h = elim (Option-cases (check_all g.allow_loopback (a ∷ rest))) [
  | inl e ↦
      let same : r.addrs ≡ a ∷ rest = ground (arith, e) in
      rw same (check_all-All g.allow_loopback (a ∷ rest) e, ground arith)
  | inr (rule, e) ↦ absurd (ground (arith, e))
]

check_looked_up-IsAllowed :
    (g : Guard) (u : Url) (found : Option (List Addr)) (r : Resolved)
    → check_looked_up g u found ≡ valid r
    → IsAllowed g r
check_looked_up-IsAllowed g u none r h = absurd (ground arith)
check_looked_up-IsAllowed g u (some []) r h = absurd (ground arith)
check_looked_up-IsAllowed g u (some (a ∷ rest)) r h = check_found-IsAllowed g u a rest r h

check_host-IsAllowed :
    (g : Guard) (lookup : Lookup) (u : Url) (literal : Option Addr) (r : Resolved)
    → check_host g lookup u literal ≡ valid r
    → IsAllowed g r
check_host-IsAllowed g lookup u (some a) r h = check_found-IsAllowed g u a [] r h
check_host-IsAllowed g lookup u none r h = check_looked_up-IsAllowed g u (lookup u.hostname) r h

check_url-IsAllowed :
    (g : Guard) (lookup : Lookup) (parsed : Option Url) (r : Resolved)
    → check_url g lookup parsed ≡ valid r
    → IsAllowed g r
check_url-IsAllowed g lookup none r h = absurd (ground arith)
check_url-IsAllowed g lookup (some u) r h =
    elim (Bool-cases
      (not (runes_eq u.scheme (runes "http") || runes_eq u.scheme (runes "https")))) [
        | inl e ↦ absurd (ground (arith, e))
        | inr e ↦ elim (Bool-cases (is_empty u.hostname)) [
          | inl k ↦ absurd (ground (arith, e, k))
          | inr k ↦ check_host-IsAllowed g lookup u (g.parse_addr u.hostname) r (rw (e, k) at h)
        ]
      ]

nth_addr-Allowed :
    (allow : Bool) (addrs : List Addr) (n : ℕ)
    → All (Allowed allow) addrs
    → n < length addrs
    → ConnectsAllowed allow (nth_addr addrs n)
unfolding nth_addr
nth_addr-Allowed allow [] n h k = absurd (omega arith)
nth_addr-Allowed allow (a ∷ rest) zero (h, hs) k = h
nth_addr-Allowed allow (a ∷ rest) (suc n) (h, hs) k = nth_addr-Allowed allow rest n hs (omega arith)

dial-Allowed :
    (g : Guard) (r : Resolved) (next : ℕ)
    → IsAllowed g r
    → ConnectsAllowed g.allow_loopback (dial r next).0
unfolding dial IsAllowed
dial-Allowed g r next (checked, some_left) =
    let nonempty : (length r.addrs == 0) ≡ false = ground arith in
    rw nonempty
      (nth_addr-Allowed g.allow_loopback r.addrs (next % length r.addrs) checked (grind arith))

dials-Allowed :
    (g : Guard) (r : Resolved) (n next : ℕ)
    → IsAllowed g r
    → All (ConnectsAllowed g.allow_loopback) (dials r n next)
unfolding dials
dials-Allowed g r zero next h = tt
dials-Allowed g r (suc n) next h = (dial-Allowed g r next h, dials-Allowed g r n (dial r next).1 h)

-- Every connection of a client that was built for a validated URL, however many it makes, is to an
-- address that the guard has checked, whatever the resolver answers by then: the client looks nothing
-- up, and never runs out of addresses.
pub validate_url-dials :
    (g : Guard) (lookup : Lookup) (raw : Runes) (r : Resolved) (n next : ℕ)
    → validate_url g lookup raw ≡ valid r
    → All (ConnectsAllowed g.allow_loopback) (dials r n next)
unfolding validate_url
validate_url-dials g lookup raw r n next h =
    dials-Allowed g r n next (check_url-IsAllowed g lookup (g.parse_url raw) r h)
