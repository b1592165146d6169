-- ===== src/Tenant/Middleware.antt =====
-- internal/httpx/tenant_middleware.go: from a principal and a path to an authorized caller.
pub mod Laws
use tenant_api_platform.Prelude.{
  ℕ, Bool, not, Result, ok, err, Option, none, some, List, ◌==◌, if◌then◌else◌,
}
use tenant_api_platform.Authz.Roles.{Perm}
use tenant_api_platform.Authz.Principal.{
  Principal, is_api_key, with_resolved_tenant, Gate, refused, passed, require_perm,
}
use tenant_api_platform.Httperr.{map_error}
use tenant_api_platform.Tenant.{
  Scope, new_scope, Authorized, new_machine_authorized, Membership, resolve,
}

-- The request is answered, or goes on with its context's principal and authorized caller.
pub data Resolution : Type 0 where
  answered : ℕ → Resolution
  resolved_as : Principal → Authorized → Resolution

abbrev machine_caller : Principal → Result Authorized → Resolution
machine_caller p (ok auth) = resolved_as p auth
machine_caller p (err e) = answered (map_error e).status

abbrev machine_scope : Principal → Result Scope → Resolution
machine_scope p (err e) = answered 404
machine_scope p (ok scope) = machine_caller p (new_machine_authorized scope p.credential_id)

abbrev session_caller : Principal → Result Authorized → Resolution
session_caller p (err e) = answered (map_error e).status
session_caller p (ok auth) = resolved_as (with_resolved_tenant p auth.scope.id auth.role) auth

-- ResolveTenant: no path id is one that does not parse.
unfoldable pub resolve_tenant : List Membership → Option Principal → Option ℕ → Resolution
unfolding new_scope new_machine_authorized resolve with_resolved_tenant map_error
resolve_tenant memberships none path_id = answered 401
resolve_tenant memberships (some p) none = answered 404
resolve_tenant memberships (some p) (some tenant_id) =
    if is_api_key p.method
    then (if not (p.tenant_id == tenant_id)
        then answered 404
        else machine_scope p (new_scope tenant_id))
    else session_caller p (resolve memberships tenant_id p.user_id)

-- The whole gate of a route: the tenant is resolved, then the permission required.
abbrev gate_of : Perm → Resolution → Gate
unfolding require_perm
gate_of perm (answered status) = refused status
gate_of perm (resolved_as p auth) = require_perm perm (some p)

unfoldable pub route_gate : List Membership → Perm → Option Principal → Option ℕ → Gate
unfolding resolve_tenant gate_of
route_gate memberships perm principal path_id =
    gate_of perm (resolve_tenant memberships principal path_id)
