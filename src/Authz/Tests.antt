-- ===== src/Authz/Tests.antt =====
-- Concrete roles, keys and principals (internal/authz).
use tenant_api_platform.Prelude.{true, ok, some, List, [], ◌∷◌, ◌≡◌, refl}
use tenant_api_platform.Authz.Roles.{
  owner, other_role, Perm, tenant_manage, invoice_read, invoice_settle, all_perms, contains,
}
use tenant_api_platform.Authz.Keys.{validate_key_scopes, validate_scopes, key_forbidden}
use tenant_api_platform.Authz.Principal.{
  Principal, api_key, with_resolved_tenant, require_perm, refused,
}
use tenant_api_platform.Authz.Principal.Laws.{require_perm-forbidden}

abbrev reporting : List Perm
reporting = invoice_read ∷ invoice_settle ∷ []

abbrev reporting_key : Principal
reporting_key = record {
  user_id = 0;
  tenant_id = 7;
  role = other_role [];
  scopes = reporting;
  method = api_key;
  credential_id = 41;
}

reporting_valid : validate_key_scopes reporting ≡ ok tt
unfolding validate_key_scopes validate_scopes key_forbidden contains all_perms
reporting_valid = refl

manage_forbidden : key_forbidden tenant_manage ≡ true
unfolding key_forbidden contains
manage_forbidden = refl

require_perm-forbidden_example :
    require_perm tenant_manage (some (with_resolved_tenant reporting_key 7 owner)) ≡ refused 403
require_perm-forbidden_example =
    require_perm-forbidden reporting_key tenant_manage 7 owner refl reporting_valid manage_forbidden
