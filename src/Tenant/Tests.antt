-- ===== src/Tenant/Tests.antt =====
-- A roster of two tenants, and who gets in (internal/tenant, internal/httpx/tenant_middleware.go).
use tenant_api_platform.Prelude.{ℕ, ok, some, List, [], ◌∷◌, ◌≡◌, ◌≢◌, ◌↔◌, ◌⊎◌, refl}
use tenant_api_platform.Authz.Roles.{member, admin, other_role, invoice_write, valid_role}
use tenant_api_platform.Authz.Principal.{Principal, jwt, passed}
use tenant_api_platform.Db.{with_identity_tx, identity_valid}
use tenant_api_platform.Tenant.{
  kind_human, Authorized, Membership, resolve, add_member, auth_valid, identity, insert_membership,
  scope_valid,
}
use tenant_api_platform.Tenant.Laws.{resolve-add_member}
use tenant_api_platform.Tenant.Middleware.{route_gate}
use tenant_api_platform.Tenant.Middleware.Laws.{ByKey, BySession, route_gate_iff}

abbrev acme : ℕ
acme = 7

abbrev roster : List Membership
roster =
    record { tenant_id = 7; user_id = 3; role = admin }
    ∷ record { tenant_id = 8; user_id = 3; role = member }
    ∷ []

abbrev admin_3 : Authorized
admin_3 = record {
  scope = record { id = 7 };
  kind = kind_human;
  user_id = 3;
  role = admin;
  key_id = 0;
}

abbrev session_3 : Principal
session_3 = record {
  user_id = 3;
  tenant_id = 0;
  role = other_role [];
  scopes = [];
  method = jwt;
  credential_id = 0;
}

added_4 : (add_member (3 ∷ 4 ∷ []) admin_3 4 member roster).0 ≡ ok tt
unfolding add_member auth_valid scope_valid valid_role insert_membership with_identity_tx identity
    identity_valid
added_4 = refl

resolve-add_member_example :
    (resolve (add_member (3 ∷ 4 ∷ []) admin_3 4 member roster).1 7 4
      ≡ ok (record {
        scope = record { id = 7 };
        kind = kind_human;
        user_id = 4;
        role = member;
        key_id = 0;
      }))
    × (resolve (add_member (3 ∷ 4 ∷ []) admin_3 4 member roster).1 8 3 ≡ resolve roster 8 3)
resolve-add_member_example =
    resolve-add_member (3 ∷ 4 ∷ []) admin_3 4 member roster 8 3 added_4 refl

route_gate_iff_example : (route_gate roster invoice_write (some session_3) (some acme) ≡ passed) ↔ (
    (acme ≢ 0)
    × (ByKey roster invoice_write session_3 acme ⊎ BySession roster invoice_write session_3 acme))
route_gate_iff_example = route_gate_iff roster invoice_write session_3 acme
