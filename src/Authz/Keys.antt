-- ===== src/Authz/Keys.antt =====
-- internal/authz/keys.go: what an API key may be granted.
pub mod Laws
use tenant_api_platform.Prelude.{
  Bool, true, false, not, Result, ok, err, internal, List, [], ◌∷◌, if◌then◌else◌, select,
}
use tenant_api_platform.Authz.Roles.{
  Perm, tenant_manage, member_manage, apikey_manage, contains, all_perms,
}

-- The keys of the map `keyForbiddenPerms`.
abbrev pub key_forbidden_perms : List Perm
key_forbidden_perms = tenant_manage ∷ member_manage ∷ apikey_manage ∷ []

-- The flag of KeyForbiddenReason.
unfoldable pub key_forbidden : Perm → Bool
unfolding contains
key_forbidden p = contains p key_forbidden_perms

-- The loop, with the permissions seen so far. Its errors wrap no sentinel.
unfoldable pub validate_scopes : List Perm → List Perm → Result (Unit {0})
unfolding key_forbidden
validate_scopes seen [] = ok tt
validate_scopes seen (p ∷ scopes) =
    let rest = validate_scopes (p ∷ seen) scopes in
    if not (contains p all_perms)
    then err internal
    else if key_forbidden p
    then err internal
    else if contains p seen
    then err internal
    else rest

unfoldable pub validate_key_scopes : List Perm → Result (Unit {0})
unfolding validate_scopes
validate_key_scopes [] = err internal
validate_key_scopes (p ∷ scopes) = validate_scopes [] (p ∷ scopes)

unfoldable pub key_grantable_perms : List Perm
unfolding key_forbidden all_perms
key_grantable_perms = select (λ p. not (key_forbidden p)) all_perms
