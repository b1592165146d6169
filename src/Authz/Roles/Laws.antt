-- ===== src/Authz/Roles/Laws.antt =====
-- The role hierarchy, and what the sorted listings of internal/authz/roles.go hold.
use tenant_api_platform.Prelude.{Bool, true, false, not, eqb, ◌&&◌, List, [], ◌∷◌, ◌≡◌, refl}
use tenant_api_platform.Prelude.Runes.{Runes}
use tenant_api_platform.Authz.Roles.{
  Perm-discrete, Role, owner, admin, member, other_role, Perm, tenant_manage, can, perms, contains,
  all_perms, runes_ltb, perm_name,
}

-- Every permission of a member is one of an admin, and every one of an admin is one of an owner;
-- what an owner may do and an admin may not is `tenant:manage` alone; and a role that is none of
-- the three may do nothing.
pub can_hierarchy :
    (p : Perm) (s : Runes)
    → ((can member p && not (can admin p)) ≡ false)
      × ((can admin p && not (can owner p)) ≡ false)
      × ((can owner p && not (can admin p)) ≡ eqb Perm-discrete p tenant_manage)
      × (can (other_role s) p ≡ false)
unfolding can Perm-discrete
can_hierarchy tenant_manage s = (refl, refl, refl, refl)
can_hierarchy p s = (refl, refl, refl, refl)

-- The names stand in strictly increasing order, so no permission is listed twice.
abbrev pub ascending : List Perm → Bool
unfolding runes_ltb
ascending [] = true
ascending (p ∷ []) = true
ascending (p ∷ q ∷ ps) = runes_ltb (perm_name p) (perm_name q) && ascending (q ∷ ps)

-- `Perms` lists, in strictly increasing order of the names, exactly the permissions that `Can`
-- grants the role.
pub contains-perms :
    (r : Role) (p : Perm) → (contains p (perms r) ≡ can r p) × (ascending (perms r) ≡ true)
unfolding can perms ascending runes_ltb
contains-perms owner tenant_manage = (refl, refl)
contains-perms owner p = (refl, refl)
contains-perms admin tenant_manage = (refl, refl)
contains-perms admin p = (refl, refl)
contains-perms member tenant_manage = (refl, refl)
contains-perms member p = (refl, refl)
contains-perms (other_role s) p = (refl, refl)

-- `AllPerms` lists, in strictly increasing order, exactly the permissions of the owner.
pub contains-all_perms :
    (p : Perm) → (contains p all_perms ≡ can owner p) × (ascending all_perms ≡ true)
unfolding can all_perms ascending runes_ltb
contains-all_perms tenant_manage = (refl, refl)
contains-all_perms p = (refl, refl)
