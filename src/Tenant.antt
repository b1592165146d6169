-- ===== src/Tenant.antt =====
-- internal/tenant: scopes, authorized callers, the membership gate and the roster.
--
-- Identifiers are numbers, and `uuid.Nil` is 0.
pub mod Middleware
pub mod Laws
pub mod Tests
use tenant_api_platform.Prelude.{
  ℕ, Bool, true, false, not, ◌&&◌, Result, ok, err, Err, not_found, no_scope, unauthorized,
  validation, conflict, ◌>>=◌, Option, none, some, List, [], ◌∷◌, ◌++◌, ◌==◌, if◌then◌else◌, find,
  any,
}
use tenant_api_platform.Authz.Roles.{Role, other_role, valid_role}
use tenant_api_platform.Db.{Identity, with_identity_tx}

pub record Scope : Type 0 where
  pub id : ℕ

unfoldable pub new_scope : ℕ → Result Scope
new_scope tenant_id = if tenant_id == 0 then err no_scope else ok (record { id = tenant_id })

unfoldable pub scope_valid : Scope → Bool
scope_valid s = not (s.id == 0)

pub data Kind : Type 0 where
  kind_unset kind_human kind_machine : Kind

pub record Authorized : Type 0 where
  pub scope : Scope
  pub kind : Kind
  pub user_id : ℕ
  pub role : Role
  pub key_id : ℕ

-- newAuthorized. The empty string is the zero value of a role.
unfoldable pub new_authorized : Scope → ℕ → Role → Result Authorized
unfolding scope_valid valid_role
new_authorized scope user_id role =
    if not (scope_valid scope)
    then err no_scope
    else if user_id == 0
    then err unauthorized
    else if not (valid_role role)
    then err validation
    else ok
        (record { scope = scope; kind = kind_human; user_id = user_id; role = role; key_id = 0 })

unfoldable pub new_machine_authorized : Scope → ℕ → Result Authorized
unfolding scope_valid
new_machine_authorized scope key_id =
    if not (scope_valid scope)
    then err no_scope
    else if key_id == 0
    then err unauthorized
    else ok (record {
      scope = scope;
      kind = kind_machine;
      user_id = 0;
      role = other_role [];
      key_id = key_id;
    })

abbrev is_human : Kind → Bool
is_human kind_human = true
is_human _ = false

abbrev is_machine_kind : Kind → Bool
is_machine_kind kind_machine = true
is_machine_kind _ = false

unfoldable pub is_machine : Authorized → Bool
is_machine a = is_machine_kind a.kind

unfoldable pub identity : Authorized → Identity
identity a = record { tenant_id = a.scope.id; user_id = if is_human a.kind then a.user_id else 0 }

abbrev principal_valid : Kind → ℕ → Role → ℕ → Bool
unfolding valid_role
principal_valid kind_human user_id role key_id = not (user_id == 0) && valid_role role
principal_valid kind_machine user_id role key_id = not (key_id == 0)
principal_valid kind_unset user_id role key_id = false

-- The method Valid.
unfoldable pub auth_valid : Authorized → Bool
unfolding scope_valid principal_valid
auth_valid a = scope_valid a.scope && principal_valid a.kind a.user_id a.role a.key_id

-- A row of the table `memberships`.
pub record Membership : Type 0 where
  pub tenant_id : ℕ
  pub user_id : ℕ
  pub role : Role

abbrev pub names : ℕ → ℕ → Membership → Bool
names tenant_id user_id m = m.tenant_id == tenant_id && m.user_id == user_id

abbrev role_found : Option Membership → Result Role
role_found none = err not_found
role_found (some m) = ok m.role

unfoldable pub authorize : List Membership → Scope → ℕ → Result Role
unfolding scope_valid
authorize memberships scope user_id =
    if not (scope_valid scope)
    then err no_scope
    else if user_id == 0
    then err unauthorized
    else role_found (find (names scope.id user_id) memberships)

abbrev or_not_found : {A : Type 0} → Result A → Result A
or_not_found (ok a) = ok a
or_not_found (err e) = err not_found

-- The membership gate.
unfoldable pub resolve : List Membership → ℕ → ℕ → Result Authorized
unfolding new_scope authorize new_authorized
resolve memberships tenant_id user_id = do
  scope ← or_not_found (new_scope tenant_id)
  if user_id == 0
      then err unauthorized
      else do role ← authorize memberships scope user_id; new_authorized scope user_id role

-- The INSERT of AddMember: the foreign key on users, then the primary key (tenant_id, user_id).
unfoldable pub insert_membership :
    List ℕ → ℕ → ℕ → Role → List Membership → Result (Unit {0} × List Membership)
insert_membership users tenant_id user_id role memberships =
    if not (any (λ u. u == user_id) users)
    then err not_found
    else if any (names tenant_id user_id) memberships
    then err conflict
    else ok
        (tt, memberships ++ record { tenant_id = tenant_id; user_id = user_id; role = role } ∷ [])

unfoldable pub add_member :
    List ℕ → Authorized → ℕ → Role → List Membership → Result (Unit {0}) × List Membership
unfolding auth_valid valid_role insert_membership with_identity_tx identity
add_member users auth user_id role memberships =
    if not (auth_valid auth)
    then (err no_scope, memberships)
    else if user_id == 0
    then (err validation, memberships)
    else if not (valid_role role)
    then (err validation, memberships)
    else with_identity_tx (identity auth) (insert_membership users auth.scope.id user_id role)
        memberships
