-- ===== src/Audit/Laws.antt =====
-- Who an entry of the trail names (internal/audit/audit.go).
use tenant_api_platform.Prelude.{ℕ, true, ok, Option, some, ◌≡◌, arith}
use tenant_api_platform.Tenant.{Authorized, Kind, kind_machine, auth_valid}
use tenant_api_platform.Audit.{
  ActorKind, actor_user, actor_api_key, actor_matches, actor_from_authorized,
}

abbrev pub actor_of : Kind → Authorized → Option ℕ × ActorKind
actor_of kind_machine auth = (some auth.key_id, actor_api_key)
actor_of _ auth = (some auth.user_id, actor_user)

-- A valid caller is recorded as one actor of the right kind, a key as itself and a session as its
-- user, in a form that the entry's own check accepts.
pub actor_from_authorized-matches :
    (auth : Authorized)
    → auth_valid auth ≡ true
    → (actor_from_authorized auth ≡ ok (actor_of auth.kind auth))
      × (actor_matches (actor_of auth.kind auth).1 (actor_of auth.kind auth).0 ≡ true)
unfolding actor_from_authorized auth_valid
actor_from_authorized-matches auth h = ground arith
