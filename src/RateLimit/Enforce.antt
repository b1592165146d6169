-- ===== src/RateLimit/Enforce.antt =====
-- internal/httpx/ratelimit.go: the policies, what a caller is counted under, and enforce.
--
-- The text of an identifier is a parameter, and so is the address that clientip attributes.
pub mod Laws
use tenant_api_platform.Prelude.{
  ℕ, ◌+◌, ◌-◌, ◌*◌, ◌/◌, Bool, true, false, List, [], ◌∷◌, ◌++◌, Option, none, some, ltb,
  if◌then◌else◌,
}
use tenant_api_platform.Prelude.Runes.{Runes, runes}
use tenant_api_platform.RateLimit.Limiter.{Policy, Decision}

abbrev pub minute : ℕ
minute = 60000000000

abbrev pub hour : ℕ
hour = 3600000000000

-- PolicyLogin, PolicyRegister, PolicyRefreshIP and PolicyAPI.
abbrev pub policy_login : Policy
policy_login = record { name = runes "login"; limit = 10; window = minute }

abbrev pub policy_register : Policy
policy_register = record { name = runes "register"; limit = 5; window = hour }

abbrev pub policy_refresh_ip : Policy
policy_refresh_ip = record { name = runes "refresh_ip"; limit = 20; window = minute }

abbrev pub policy_api : Policy
policy_api = record { name = runes "api"; limit = 600; window = minute }

-- Whom a request is counted under: the tenant that it was authorized for, the principal that it
-- carries, or its address.
pub data Subject : Type 0 where
  of_tenant of_principal : ℕ → Subject
  of_address : Runes → Subject

unfoldable pub bucket_of : (ℕ → Runes) → Subject → Runes
bucket_of uuid_text (of_tenant tenant_id) = runes "tenant:" ++ uuid_text tenant_id
bucket_of uuid_text (of_principal user_id) = runes "principal:" ++ uuid_text user_id
bucket_of uuid_text (of_address ip) = runes "ip:" ++ ip

-- limitByPrincipal's choice, from what the request's context holds.
abbrev pub subject_of : Option ℕ → Option ℕ → Runes → Subject
subject_of (some tenant_id) principal ip = of_tenant tenant_id
subject_of none (some user_id) ip = of_principal user_id
subject_of none none ip = of_address ip

pub data RateHeader : Type 0 where
  x_limit x_degraded x_remaining x_reset retry_after : RateHeader

pub record Answer : Type 0 where
  pub passed : Bool
  pub headers : List (RateHeader × ℕ)

abbrev pub one_second : ℕ
one_second = 1000000000

-- The header is set where there is something to wait for, in whole seconds, rounded up.
abbrev pub seconds_header : RateHeader → ℕ → List (RateHeader × ℕ)
seconds_header name reset_after =
    if ltb 0 reset_after then (name, (reset_after + one_second - 1) / one_second) ∷ [] else []

abbrev pub pacing_headers : Decision → List (RateHeader × ℕ)
pacing_headers d =
    (x_limit, d.limit)
    ∷ (if d.degraded
        then (x_degraded, 1) ∷ []
        else (x_remaining, d.remaining) ∷ seconds_header x_reset d.reset_after)

-- enforce.
unfoldable pub enforce : Decision → Answer
enforce d = if d.allowed then record { passed = true; headers = pacing_headers d } else record {
  passed = false;
  headers = pacing_headers d ++ seconds_header retry_after d.reset_after;
}

abbrev pub unlimited : Answer
unlimited = record { passed = true; headers = [] }

-- limitByIP and limitByPrincipal: with no limiter, everything passes.
unfoldable pub limited : Option Decision → Answer
limited none = unlimited
limited (some d) = enforce d

abbrev pub same_header : RateHeader → RateHeader → Bool
same_header x_limit x_limit = true
same_header x_degraded x_degraded = true
same_header x_remaining x_remaining = true
same_header x_reset x_reset = true
same_header retry_after retry_after = true
same_header _ _ = false

-- The value of a header, as a client reads it.
abbrev pub value_of : RateHeader → List (RateHeader × ℕ) → Option ℕ
value_of name [] = none
value_of name ((k, n) ∷ rest) =
    let later = value_of name rest in if same_header k name then some n else later
