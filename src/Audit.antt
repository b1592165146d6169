-- ===== src/Audit.antt =====
-- internal/audit/audit.go: the entries of the append-only trail, and their validation.
--
-- The images before and after a change are of a type `I` that the audited component chooses.
pub mod Laws
pub mod Reader
use tenant_api_platform.Prelude.{
  ℕ, Bool, true, false, not, ◌&&◌, ◌||◌, Result, ok, err, internal, no_scope, ◌>>=◌, Option, none,
  some, List, [], ◌∷◌, ◌++◌, ◌==◌, if◌then◌else◌, any,
}
use tenant_api_platform.Prelude.Runes.{Runes, runes}
use tenant_api_platform.Tenant.{Authorized, is_machine}

pub data ActorKind : Type 0 where
  actor_user actor_api_key actor_system : ActorKind
  other_actor : Runes → ActorKind

pub record Entry (I : Type 0) : Type 0 where
  pub tenant_id : ℕ
  pub actor_id : Option ℕ
  pub actor_kind : ActorKind
  pub action : Runes
  pub resource : Runes
  pub resource_id : Option ℕ
  pub before : Option I
  pub after : Option I
  pub request_id : Runes

abbrev pub is_some : {A : Type 0} → Option A → Bool
is_some none = false
is_some (some a) = true

abbrev pub actor_matches : ActorKind → Option ℕ → Bool
actor_matches actor_user id = is_some id
actor_matches actor_api_key id = is_some id
actor_matches actor_system id = not (is_some id)
actor_matches (other_actor s) id = false

abbrev pub is_empty : Runes → Bool
is_empty [] = true
is_empty (r ∷ s) = false

-- The method Validate: its errors wrap no sentinel.
unfoldable pub validate_entry : {I : Type 0} → Entry I → Result (Unit {0})
validate_entry e =
    if e.tenant_id == 0
    then err internal
    else if not (actor_matches e.actor_kind e.actor_id)
    then err internal
    else if not (any (λ r. r == b'.') e.action)
    then err internal
    else if is_empty e.resource
    then err internal
    else if not (is_some e.before) && not (is_some e.after)
    then err internal
    else ok tt

-- Write: the entry is appended to the trail, in the caller's transaction.
unfoldable pub write : {I : Type 0} → Entry I → List (Entry I) → Result (Unit {0} × List (Entry I))
unfolding validate_entry
write e trail = do _ ← validate_entry e; ok (tt, trail ++ e ∷ [])

unfoldable pub actor_from_authorized : Authorized → Result (Option ℕ × ActorKind)
unfolding is_machine
actor_from_authorized auth =
    if is_machine auth
    then ok (some auth.key_id, actor_api_key)
    else if auth.user_id == 0
    then err no_scope
    else ok (some auth.user_id, actor_user)
