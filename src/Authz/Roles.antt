-- ===== src/Authz/Roles.antt =====
-- internal/authz/roles.go: roles, permissions and the static matrix between them.
--
-- `Role` and `Perm` are Go strings: a constructor for each constant, and one for any other string.
pub mod Laws
use native.Mathlib.Decide.{ℕ_discrete}
use tenant_api_platform.Prelude.{
  Bool, true, false, ◌||◌, Option, none, some, List, [], ◌∷◌, ◌++◌, ◌≡◌, refl, ltb, ◌==◌,
  if◌then◌else◌, eqb,
}
use tenant_api_platform.Prelude.Runes.{Runes, runes}

pub data Role : Type 0 where
  owner admin member : Role
  other_role : Runes → Role

pub data Perm : Type 0 where
  tenant_read tenant_manage member_read member_manage project_read project_write : Perm
  invoice_read invoice_write invoice_settle apikey_read apikey_manage : Perm
  webhook_read webhook_manage audit_read : Perm
  other_perm : Runes → Perm

unfoldable pub Perm-discrete : Discrete Perm
unfolding ℕ_discrete
Perm-discrete = hlevel ℕ_discrete

abbrev pub perm_name : Perm → Runes
perm_name tenant_read = runes "tenant:read"
perm_name tenant_manage = runes "tenant:manage"
perm_name member_read = runes "member:read"
perm_name member_manage = runes "member:manage"
perm_name project_read = runes "project:read"
perm_name project_write = runes "project:write"
perm_name invoice_read = runes "invoice:read"
perm_name invoice_write = runes "invoice:write"
perm_name invoice_settle = runes "invoice:settle"
perm_name apikey_read = runes "apikey:read"
perm_name apikey_manage = runes "apikey:manage"
perm_name webhook_read = runes "webhook:read"
perm_name webhook_manage = runes "webhook:manage"
perm_name audit_read = runes "audit:read"
perm_name (other_perm s) = s

-- `perms[p]` on a set of permissions.
unfoldable pub contains : Perm → List Perm → Bool
unfolding Perm-discrete
contains p [] = false
contains p (q ∷ ps) = eqb Perm-discrete p q || contains p ps

abbrev pub member_perms : List Perm
member_perms = tenant_read ∷ member_read ∷ project_read ∷ invoice_read ∷ []

abbrev pub admin_perms : List Perm
admin_perms =
    tenant_read ∷ member_read ∷ member_manage ∷ project_read ∷ project_write ∷ invoice_read
    ∷ invoice_write ∷ invoice_settle ∷ apikey_read ∷ apikey_manage ∷ webhook_read ∷ webhook_manage
    ∷ audit_read ∷ []

abbrev pub owner_perms : List Perm
owner_perms =
    tenant_read ∷ tenant_manage ∷ member_read ∷ member_manage ∷ project_read ∷ project_write
    ∷ invoice_read ∷ invoice_write ∷ invoice_settle ∷ apikey_read ∷ apikey_manage ∷ webhook_read
    ∷ webhook_manage ∷ audit_read ∷ []

-- The map `rolePerms`.
abbrev pub role_perms : Role → Option (List Perm)
role_perms member = some member_perms
role_perms admin = some admin_perms
role_perms owner = some owner_perms
role_perms (other_role s) = none

unfoldable pub valid_role : Role → Bool
valid_role r = elim (role_perms r) [ none ↦ false | some ps ↦ true ]

unfoldable pub can : Role → Perm → Bool
unfolding contains
can r p = elim (role_perms r) [ none ↦ false | some ps ↦ contains p ps ]

-- `<` on strings.
unfoldable pub runes_ltb : Runes → Runes → Bool
runes_ltb [] [] = false
runes_ltb [] (b ∷ t) = true
runes_ltb (a ∷ s) [] = false
runes_ltb (a ∷ s) (b ∷ t) = let rest = runes_ltb s t in if a == b then rest else ltb a b

-- sort.Slice on the names; no two elements of a set compare equal.
insert_sorted : Perm → List Perm → List Perm
unfolding runes_ltb
insert_sorted p [] = p ∷ []
insert_sorted p (q ∷ ps) =
    if runes_ltb (perm_name p) (perm_name q) then p ∷ q ∷ ps else q ∷ insert_sorted p ps

sort_perms : List Perm → List Perm
unfolding insert_sorted
sort_perms [] = []
sort_perms (p ∷ ps) = insert_sorted p (sort_perms ps)

-- The keys of a map that is filled from a list: each once.
keys_of : List Perm → List Perm
unfolding contains
keys_of [] = []
keys_of (p ∷ ps) = let rest = keys_of ps in if contains p ps then rest else p ∷ rest

unfoldable pub perms : Role → List Perm
unfolding sort_perms
perms r = elim (role_perms r) [ none ↦ [] | some ps ↦ sort_perms ps ]

unfoldable pub all_perms : List Perm
unfolding sort_perms keys_of
all_perms = sort_perms (keys_of (member_perms ++ admin_perms ++ owner_perms))

-- From least to most privileged.
abbrev pub roles : List Role
roles = member ∷ admin ∷ owner ∷ []
