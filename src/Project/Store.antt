-- ===== src/Project/Store.antt =====
-- internal/project/store.go: Create and Get, and what the other methods share with them.
pub mod Update
pub mod Archive
pub mod Laws
pub mod Contract
pub mod Fresh
pub mod Tests
use tenant_api_platform.Prelude.{
  ℕ, ◌+◌, Bool, true, false, not, ◌&&◌, ◌||◌, Result, ok, err, internal, no_scope, not_found,
  version_conflict, invalid, Option, none, some, List, [], ◌∷◌, ◌++◌, ltb, ◌==◌, if◌then◌else◌,
  find,
}
use tenant_api_platform.Prelude.Int64.{ℤ, pos, leb_ℤ, eqb_ℤ}
use tenant_api_platform.Prelude.Runes.{Runes, runes, byte_len, trim_space}
use tenant_api_platform.Audit.{Entry, is_some, is_empty, write, actor_from_authorized}
use tenant_api_platform.Db.{
  Tx, pure, fail, lift, check, gets, modify, with_identity_tx, ◌>>=◌, ◌>>◌,
}
use tenant_api_platform.Tenant.{Authorized, auth_valid, is_machine, identity}
use tenant_api_platform.Project.Validate.{ProjectInput, Slugs, validate_project}
use tenant_api_platform.Project.Tables.{
  ProjectRow, ProjectImage, ProjectTables, not_archived, in_tenant, insert_project, rewrite_project,
}

-- What one call draws: the database's time, the identifier it makes, and its request id.
pub record ProjectCall : Type 0 where
  pub now : ℕ
  pub project_id : ℕ
  pub request_id : Runes

unfoldable pub project_image : ProjectRow → ProjectImage
project_image p = record {
  id = p.id;
  name = p.name;
  slug = p.slug;
  description = p.description;
  version = p.version;
  archived_at = p.archived_at;
}

-- The image of what was read before, or of Project{}.
abbrev pub image_or_zero : Option ProjectRow → ProjectImage
image_or_zero (some p) = project_image p
image_or_zero none = record {
  id = 0;
  name = [];
  slug = [];
  description = [];
  version = 0;
  archived_at = none;
}

abbrev store_project_trail :
    ProjectTables
    → Result (Unit {0} × List (Entry ProjectImage))
    → Result (Unit {0} × ProjectTables)
store_project_trail t (ok (u, trail)) = ok (tt, record t { trail = trail })
store_project_trail t (err e) = err e

unfoldable pub audit_project :
    ProjectCall
    → Authorized
    → Runes
    → ProjectRow
    → Option ProjectImage
    → Option ProjectImage
    → Tx ProjectTables (Unit {0})
audit_project call auth action p before after = do
  actor ← lift (actor_from_authorized auth)
  λ t. store_project_trail t (
      write
        (record {
          tenant_id = p.tenant_id;
          actor_id = actor.0;
          actor_kind = actor.1;
          action = action;
          resource = runes "project";
          resource_id = some p.id;
          before = before;
          after = after;
          request_id = call.request_id;
        })
        t.trail)

unfoldable pub new_project : ProjectCall → Authorized → ProjectInput → ProjectRow
new_project call auth i = record {
  id = call.project_id;
  tenant_id = auth.scope.id;
  name = i.name;
  slug = i.slug;
  description = i.description;
  version = 1;
  created_by = if is_machine auth then none else some auth.user_id;
  created_by_key = if is_machine auth then some auth.key_id else none;
  created_at = call.now;
  updated_at = call.now;
  archived_at = none;
}

unfoldable pub create_project_tx :
    ProjectCall → Authorized → ProjectInput → Tx ProjectTables ProjectRow
create_project_tx call auth i = do
  insert_project (new_project call auth i)
  audit_project call auth (runes "project.create") (new_project call auth i) none
      (some (project_image (new_project call auth i)))
  pure (new_project call auth i)

abbrev create_validated :
    ProjectCall
    → Authorized
    → Result ProjectInput
    → ProjectTables
    → Result ProjectRow × ProjectTables
create_validated call auth (err e) t = (err e, t)
create_validated call auth (ok i) t =
    with_identity_tx (identity auth) (create_project_tx call auth i) t

-- Create.
unfoldable pub create_project :
    Slugs
    → ProjectCall
    → Authorized
    → ProjectInput
    → ProjectTables
    → Result ProjectRow × ProjectTables
create_project env call auth input t =
    if not (auth_valid auth)
    then (err no_scope, t)
    else create_validated call auth (validate_project env input) t

abbrev pub or_missing_row : Option ProjectRow → Tx ProjectTables ProjectRow
or_missing_row none = fail not_found
or_missing_row (some p) = pure p

unfoldable pub get_project_tx : ℕ → ℕ → Tx ProjectTables ProjectRow
get_project_tx id tenant_id = do
  found ← gets (λ t. find (in_tenant id tenant_id) t.projects)
  or_missing_row found

-- Get.
unfoldable pub get_project : Authorized → ℕ → ProjectTables → Result ProjectRow × ProjectTables
get_project auth id t =
    if not (auth_valid auth)
    then (err no_scope, t)
    else if id == 0
    then (err not_found, t)
    else with_identity_tx (identity auth) (get_project_tx id auth.scope.id) t
