-- ===== src/Tenant/Laws.antt =====
-- What the membership gate answers, and what adding a member changes (internal/tenant/store.go).
use tenant_api_platform.Prelude.{
  ℕ, Result, arith, Bool, true, false, not, ◌&&◌, ok, err, not_found, Option, none, some, List, [],
  ◌∷◌, ◌++◌, ◌≡◌, ◌≢◌, refl, ◌∙◌, inl, inr, arith, ◌==◌, if◌then◌else◌, find, any, Option-cases,
}
use tenant_api_platform.Authz.Roles.{Role, valid_role}
use tenant_api_platform.Db.{with_identity_tx, finish}
use tenant_api_platform.Tenant.{
  identity, kind_human, Authorized, auth_valid, Membership, names, resolve, add_member,
}

-- A valid caller's identity reaches the database.
pub with_identity_tx-auth :
    {S A : Type 0} (auth : Authorized) (fn : S → Result (A × S)) (s : S)
    → auth_valid auth ≡ true
    → with_identity_tx (identity auth) fn s ≡ finish s (fn s)
unfolding with_identity_tx auth_valid identity
with_identity_tx-auth auth fn s h = ground arith

-- What a caller resolved for a tenant and a user is.
pub record IsMember (memberships : List Membership) (tenant_id user_id : ℕ) (auth : Authorized)
    : Type 0 where
  pub valid : auth_valid auth ≡ true
  pub kind : auth.kind ≡ kind_human
  pub scope : auth.scope.id ≡ tenant_id
  pub user : auth.user_id ≡ user_id
  pub membership : Membership
  pub listed : find (names tenant_id user_id) memberships ≡ some membership
  pub role : auth.role ≡ membership.role

-- Whoever the gate lets through is a valid human caller of that tenant and that user, with the role
-- of a membership in the table.
pub resolve-IsMember :
    (memberships : List Membership) (tenant_id user_id : ℕ) (auth : Authorized)
    → resolve memberships tenant_id user_id ≡ ok auth
    → IsMember memberships tenant_id user_id auth
unfolding resolve auth_valid
resolve-IsMember memberships tenant_id user_id auth h =
    elim (Option-cases (find (names tenant_id user_id) memberships)) [
      | inl missing ↦ absurd (ground arith)
      | inr (m, found) ↦ record {
        valid = ground arith;
        kind = ground arith;
        scope = ground arith;
        user = ground arith;
        membership = m;
        listed = found;
        role = ground arith;
      }
    ]

-- A user who holds no membership in the tenant is answered "not found", whether or not the tenant
-- exists, so the answer says nothing of its existence.
resolve-not_member :
    (memberships : List Membership) (tenant_id user_id : ℕ)
    → user_id ≢ 0
    → find (names tenant_id user_id) memberships ≡ none
    → resolve memberships tenant_id user_id ≡ err not_found
unfolding resolve
resolve-not_member memberships tenant_id user_id named missing = ground arith

abbrev or_else : Option Membership → Option Membership → Option Membership
or_else none other = other
or_else (some m) other = some m

find-append :
    (p : Membership → Bool) (xs : List Membership) (y : Membership)
    → find p (xs ++ y ∷ []) ≡ or_else (find p xs) (if p y then some y else none)
find-append p [] y = refl
find-append p (x ∷ xs) y = ground (arith, find-append p xs y)

any-find : (p : Membership → Bool) (xs : List Membership) → any p xs ≡ false → find p xs ≡ none
any-find p [] h = refl
any-find p (x ∷ xs) h = ground (arith, any-find p xs)

abbrev row : Authorized → ℕ → Role → Membership
row auth user_id role = record { tenant_id = auth.scope.id; user_id = user_id; role = role }

-- A success has passed every guard, and has appended one row for a pair that had none.
add_member-eq-ok :
    (users : List ℕ) (auth : Authorized) (user_id : ℕ) (role : Role) (ms : List Membership)
    → (add_member users auth user_id role ms).0 ≡ ok tt
    → (user_id ≢ 0)
      × (auth.scope.id ≢ 0)
      × (valid_role role ≡ true)
      × (any (names auth.scope.id user_id) ms ≡ false)
      × ((add_member users auth user_id role ms).1 ≡ ms ++ row auth user_id role ∷ [])
unfolding add_member
add_member-eq-ok users auth user_id role ms h = ground arith

resolve-find :
    (ms ns : List Membership) (tenant_id user_id : ℕ)
    → find (names tenant_id user_id) ms ≡ find (names tenant_id user_id) ns
    → resolve ms tenant_id user_id ≡ resolve ns tenant_id user_id
unfolding resolve
resolve-find ms ns tenant_id user_id e = ground arith

resolved_row :
    (auth : Authorized) (user_id : ℕ) (role : Role) (ms : List Membership)
    → user_id ≢ 0
    → auth.scope.id ≢ 0
    → valid_role role ≡ true
    → find (names auth.scope.id user_id) (ms ++ row auth user_id role ∷ [])
      ≡ or_else (find (names auth.scope.id user_id) ms) (
          if names auth.scope.id user_id (row auth user_id role)
          then some (row auth user_id role)
          else none)
    → find (names auth.scope.id user_id) ms ≡ none
    → resolve (ms ++ row auth user_id role ∷ []) auth.scope.id user_id
      ≡ ok (record {
        scope = auth.scope;
        kind = kind_human;
        user_id = user_id;
        role = role;
        key_id = 0;
      })
unfolding resolve
resolved_row auth user_id role ms named scoped known appended free = ground arith

abbrev other_pair : ℕ → ℕ → ℕ → ℕ → Bool
other_pair t u t' u' = not (t == t' && u == u')

unnamed :
    (auth : Authorized) (user_id : ℕ) (role : Role) (t u : ℕ) (o : Option Membership)
    → other_pair auth.scope.id user_id t u ≡ true
    → or_else o (if names t u (row auth user_id role) then some (row auth user_id role) else none)
      ≡ o
unnamed auth user_id role t u o apart = ground arith

-- After a user was added to the caller's tenant with a role, the gate resolves that user there with
-- that role, and answers for any other pair of tenant and user as it did before.
pub resolve-add_member :
    (users : List ℕ) (auth : Authorized) (user_id : ℕ) (role : Role) (ms : List Membership)
    (t u : ℕ)
    → (add_member users auth user_id role ms).0 ≡ ok tt
    → other_pair auth.scope.id user_id t u ≡ true
    → (resolve (add_member users auth user_id role ms).1 auth.scope.id user_id
        ≡ ok (record {
          scope = auth.scope;
          kind = kind_human;
          user_id = user_id;
          role = role;
          key_id = 0;
        }))
      × (resolve (add_member users auth user_id role ms).1 t u ≡ resolve ms t u)
resolve-add_member users auth user_id role ms t u h apart =
    let (named, scoped, known, free, after) = add_member-eq-ok users auth user_id role ms h in
    rw after (
      resolved_row auth user_id role ms named scoped known
          (find-append (names auth.scope.id user_id) ms (row auth user_id role))
          (any-find (names auth.scope.id user_id) ms free),
      resolve-find _ ms t u (
          find-append (names t u) ms (row auth user_id role)
          ∙ unnamed auth user_id role t u (find (names t u) ms) apart),
    )
