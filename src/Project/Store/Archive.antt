-- ===== src/Project/Store/Archive.antt =====
-- internal/project/store.go: Archive.
use tenant_api_platform.Prelude.{
  ℕ, ◌+◌, Bool, not, ◌&&◌, Result, err, internal, no_scope, not_found, Option, none, some, ◌==◌,
  if◌then◌else◌, find,
}
use tenant_api_platform.Prelude.Runes.{runes}
use tenant_api_platform.Audit.{is_some}
use tenant_api_platform.Db.{Tx, pure, fail, gets, with_identity_tx, ◌>>=◌}
use tenant_api_platform.Tenant.{Authorized, auth_valid, identity}
use tenant_api_platform.Project.Tables.{
  ProjectRow, ProjectTables, not_archived, in_tenant, rewrite_project,
}
use tenant_api_platform.Project.Store.{ProjectCall, project_image, image_or_zero, audit_project}

-- The SET list and the WHERE clause of Archive.
unfoldable pub retired : ℕ → ProjectRow → ProjectRow
retired now p = record p { archived_at = some now; updated_at = now; version = p.version + 1 }

abbrev pub to_retire : ℕ → ℕ → ProjectRow → Bool
to_retire id tenant_id p = in_tenant id tenant_id p && not_archived p

abbrev pub already_archived : Option ProjectRow → Tx ProjectTables (Unit {0})
already_archived none = fail not_found
already_archived (some p) = if is_some p.archived_at then pure tt else fail not_found

abbrev pub on_read_back :
    ProjectCall → Authorized → Option ProjectRow → Option ProjectRow → Tx ProjectTables (Unit {0})
on_read_back call auth before none = fail internal
on_read_back call auth before (some p) =
    audit_project call auth (runes "project.archive") p (some (image_or_zero before))
      (some (project_image p))

abbrev pub on_retired :
    ProjectCall
    → Authorized
    → ℕ
    → Option ProjectRow
    → Option ProjectRow
    → Tx ProjectTables (Unit {0})
on_retired call auth id before (some p) = do
  archived ← gets (λ t. find (in_tenant id auth.scope.id) t.projects)
  on_read_back call auth before archived
on_retired call auth id before none = do
  current ← gets (λ t. find (in_tenant id auth.scope.id) t.projects)
  already_archived current

unfoldable pub archive_project_tx : ProjectCall → Authorized → ℕ → Tx ProjectTables (Unit {0})
archive_project_tx call auth id = do
  before ← gets (λ t. find (in_tenant id auth.scope.id) t.projects)
  updated ← rewrite_project (to_retire id auth.scope.id) (retired call.now)
  on_retired call auth id before updated

-- Archive.
unfoldable pub archive_project :
    ProjectCall → Authorized → ℕ → ProjectTables → Result (Unit {0}) × ProjectTables
archive_project call auth id t =
    if not (auth_valid auth)
    then (err no_scope, t)
    else if id == 0
    then (err not_found, t)
    else with_identity_tx (identity auth) (archive_project_tx call auth id) t
