-- ===== src/Project/Listing.antt =====
-- internal/project/store.go: List, the pages of a tenant's projects.
pub mod Laws
use tenant_api_platform.Prelude.{
  ℕ, ◌+◌, Bool, true, false, not, ◌&&◌, ◌||◌, Result, ok, err, no_scope, Option, none, some, List,
  [], ◌∷◌, ◌==◌, if◌then◌else◌,
}
use tenant_api_platform.Prelude.Int64.{ℤ}
use tenant_api_platform.Db.{Tx, gets, with_identity_tx}
use tenant_api_platform.Tenant.{Authorized, auth_valid, identity}
use tenant_api_platform.Cursor.{Position}
use tenant_api_platform.Listing.{Page, query, cut_result}
use tenant_api_platform.Project.Validate.{clamp_page_size}
use tenant_api_platform.Project.Tables.{ProjectRow, ProjectTables, not_archived}

-- ListFilter.
pub record ProjectFilter : Type 0 where
  pub include_archived : Bool

abbrev pub project_key : ProjectRow → Position
project_key p = record { time = p.created_at; id = p.id }

-- The WHERE clause, but for the position.
abbrev pub shows_project : ℕ → ProjectFilter → ProjectRow → Bool
shows_project tenant_id filter p =
    p.tenant_id == tenant_id && (filter.include_archived || not_archived p)

abbrev pub list_projects_tx :
    Authorized → ProjectFilter → Option Position → ℕ → Tx ProjectTables (List ProjectRow)
list_projects_tx auth filter after limit =
    gets (λ t. query project_key (shows_project auth.scope.id filter) after (limit + 1) t.projects)

-- List.
unfoldable pub list_projects :
    Authorized
    → ProjectFilter
    → Option Position
    → ℤ
    → ProjectTables
    → Result (Page ProjectRow) × ProjectTables
list_projects auth filter after limit t =
    if not (auth_valid auth)
    then (err no_scope, t)
    else cut_result project_key (clamp_page_size limit) (
        with_identity_tx (identity auth)
          (list_projects_tx auth filter after (clamp_page_size limit)) t)
