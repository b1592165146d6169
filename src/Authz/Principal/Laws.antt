-- ===== src/Authz/Principal/Laws.antt =====
-- What a principal may do, before and after its tenant is resolved.
use tenant_api_platform.Prelude.{ℕ, Bool, true, false, ok, some, ◌≡◌, arith}
use tenant_api_platform.Authz.Roles.{Role, Perm, contains, can}
use tenant_api_platform.Authz.Keys.{key_forbidden, validate_key_scopes}
use tenant_api_platform.Authz.Keys.Laws.{validate_key_scopes_iff, contains-forbidden}
use tenant_api_platform.Authz.Principal.{
  AuthMethod, jwt, api_key, other_method, Principal, allows, with_resolved_tenant, refused,
  require_perm,
}

-- A key whose scopes were accepted at mint time is refused (403) at every route that requires
-- `tenant:manage`, `member:manage` or `apikey:manage`, whatever tenant and role are resolved for it.
pub require_perm-forbidden :
    (p : Principal) (perm : Perm) (tenant_id : ℕ) (role : Role)
    → p.method ≡ api_key
    → validate_key_scopes p.scopes ≡ ok tt
    → key_forbidden perm ≡ true
    → require_perm perm (some (with_resolved_tenant p tenant_id role)) ≡ refused 403
unfolding require_perm with_resolved_tenant
require_perm-forbidden p perm tenant_id role m v h =
    let (_, granted, _) = (validate_key_scopes_iff p.scopes).0 v in
    ground (arith, contains-forbidden p.scopes perm granted h)

-- What a caller may do once its tenant is resolved, by the method of authentication.
abbrev pub allowed_after : AuthMethod → Principal → Role → Perm → Bool
unfolding can
allowed_after jwt p role perm = can role perm
allowed_after api_key p role perm = contains perm p.scopes
allowed_after (other_method s) p role perm = false

-- The tenant that a caller then acts in.
abbrev pub tenant_after : AuthMethod → Principal → ℕ → ℕ
tenant_after api_key p tenant_id = p.tenant_id
tenant_after _ p tenant_id = tenant_id

-- Resolving a tenant gives a session the permissions of the resolved role in that tenant, moves no
-- API key to another tenant and adds nothing to its scopes, and gives an unknown method nothing.
pub allows-with_resolved_tenant :
    (p : Principal) (tenant_id : ℕ) (role : Role) (perm : Perm)
    → (allows (with_resolved_tenant p tenant_id role) perm ≡ allowed_after p.method p role perm)
      × ((with_resolved_tenant p tenant_id role).tenant_id ≡ tenant_after p.method p tenant_id)
unfolding allows with_resolved_tenant allowed_after
allows-with_resolved_tenant p tenant_id role perm = ground arith
