-- ===== src/Authz/Principal.antt =====
-- internal/authz/principal.go and middleware.go: the authenticated caller, and the permission gate.
pub mod Laws
use native.Mathlib.Decide.{ℕ_discrete}
use tenant_api_platform.Prelude.{
  ℕ, Bool, true, false, not, ◌&&◌, Option, none, some, List, ◌==◌, if◌then◌else◌,
}
use tenant_api_platform.Prelude.Runes.{Runes}
use tenant_api_platform.Authz.Roles.{Role, Perm, contains, can, valid_role}

pub data AuthMethod : Type 0 where
  jwt api_key : AuthMethod
  other_method : Runes → AuthMethod

-- Identifiers are numbers, and `uuid.Nil` is 0.
pub record Principal : Type 0 where
  pub user_id : ℕ
  pub tenant_id : ℕ
  pub role : Role
  pub scopes : List Perm
  pub method : AuthMethod
  pub credential_id : ℕ

abbrev allows_by : AuthMethod → Role → List Perm → Perm → Bool
unfolding can
allows_by jwt role scopes perm = can role perm
allows_by api_key role scopes perm = contains perm scopes
allows_by (other_method s) role scopes perm = false

unfoldable pub allows : Principal → Perm → Bool
unfolding allows_by
allows p perm = allows_by p.method p.role p.scopes perm

abbrev pub is_api_key : AuthMethod → Bool
is_api_key api_key = true
is_api_key _ = false

unfoldable pub with_resolved_tenant : Principal → ℕ → Role → Principal
with_resolved_tenant p tenant_id role =
    if is_api_key p.method then p else record p { tenant_id = tenant_id; role = role }

unfoldable pub resolved : Principal → Bool
unfolding valid_role
resolved p = not (p.tenant_id == 0) && valid_role p.role

-- What the middleware answers: a status, or the handler that it wraps.
pub data Gate : Type 0 where
  refused : ℕ → Gate
  passed : Gate

-- Require(p) on the principal of the request's context.
unfoldable pub require_perm : Perm → Option Principal → Gate
unfolding allows
require_perm perm none = refused 401
require_perm perm (some p) = if not (allows p perm) then refused 403 else passed
