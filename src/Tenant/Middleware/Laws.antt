-- ===== src/Tenant/Middleware/Laws.antt =====
-- Who gets past the gate of a route (internal/httpx/tenant_middleware.go, internal/authz).
use tenant_api_platform.Prelude.{
  ℕ, true, some, List, ◌≡◌, ◌≢◌, refl, ◌↔◌, ◌⊎◌, inl, inr, arith, find, Option-cases,
}
use tenant_api_platform.Prelude.Runes.{Runes}
use tenant_api_platform.Authz.Roles.{Role, owner, other_role, Perm, can, contains, valid_role}
use tenant_api_platform.Authz.Principal.{AuthMethod, jwt, api_key, other_method, Principal, passed}
use tenant_api_platform.Tenant.{Membership, names}
use tenant_api_platform.Tenant.Middleware.{route_gate}

Method-cases : (m : AuthMethod) → (m ≡ api_key) ⊎ ((m ≡ jwt) ⊎ ((s : Runes) × (m ≡ other_method s)))
Method-cases api_key = inl refl
Method-cases jwt = inr (inl refl)
Method-cases (other_method s) = inr (inr (s, refl))

-- A role that may do something is known.
valid_role-can : (r : Role) (perm : Perm) → can r perm ≡ true → valid_role r ≡ true
unfolding can valid_role
valid_role-can owner perm h = refl
valid_role-can (other_role s) perm h = cc
valid_role-can r perm h = refl

module _ (memberships : List Membership) (perm : Perm) (p : Principal) (tenant_id : ℕ) where
  -- A key acts on its own tenant with its own scopes.
  pub record ByKey : Type 0 where
    pub method : p.method ≡ api_key
    pub own : p.tenant_id ≡ tenant_id
    pub credential : p.credential_id ≢ 0
    pub scope : contains perm p.scopes ≡ true

  -- A session acts through a membership in the tenant, with the role that it holds there.
  pub record BySession : Type 0 where
    pub method : p.method ≡ jwt
    pub user : p.user_id ≢ 0
    pub membership : Membership
    pub listed : find (names tenant_id p.user_id) memberships ≡ some membership
    pub role : can membership.role perm ≡ true

  key_sound :
      p.method ≡ api_key
      → route_gate memberships perm (some p) (some tenant_id) ≡ passed
      → (tenant_id ≢ 0) × ByKey
  unfolding route_gate
  key_sound m h = (
    ground arith,
    record { method = m; own = ground arith; credential = ground arith; scope = ground arith },
  )

  session_sound :
      p.method ≡ jwt
      → route_gate memberships perm (some p) (some tenant_id) ≡ passed
      → (tenant_id ≢ 0) × BySession
  unfolding route_gate
  session_sound m h = elim (Option-cases (find (names tenant_id p.user_id) memberships)) [
    | inl missing ↦ absurd (ground arith)
    | inr (found, e) ↦ (
      ground arith,
      record {
        method = m;
        user = ground arith;
        membership = found;
        listed = e;
        role = ground arith;
      },
    )
  ]

  other_sound :
      (s : Runes)
      → p.method ≡ other_method s
      → route_gate memberships perm (some p) (some tenant_id) ≡ passed
      → ⊥
  unfolding route_gate
  other_sound s m h = ground arith

  key_complete :
      tenant_id ≢ 0 → ByKey → route_gate memberships perm (some p) (some tenant_id) ≡ passed
  unfolding route_gate
  key_complete n g = ground arith

  session_complete :
      tenant_id ≢ 0 → BySession → route_gate memberships perm (some p) (some tenant_id) ≡ passed
  unfolding route_gate
  session_complete n g = ground (arith, valid_role-can g.membership.role perm g.role)

  -- A request gets past the gate of a tenant's route exactly when its tenant is not nil and either it
  -- carries a key of that tenant with the permission among its scopes, or a session whose user has
  -- a membership in that tenant with a role that grants the permission.
  pub route_gate_iff :
      (route_gate memberships perm (some p) (some tenant_id) ≡ passed)
      ↔ ((tenant_id ≢ 0) × (ByKey ⊎ BySession))
  route_gate_iff = (
    λ h. elim (Method-cases p.method) [
      | inl m ↦ let (n, g) = key_sound m h in (n, inl g)
      | inr (inl m) ↦ let (n, g) = session_sound m h in (n, inr g)
      | inr (inr (s, m)) ↦ absurd (other_sound s m h)
    ],
    λ (n, g). elim g [ inl k ↦ key_complete n k | inr k ↦ session_complete n k ],
  )
