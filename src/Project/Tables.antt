-- ===== src/Project/Tables.antt =====
-- The table of internal/platform/migrations/0004_projects.sql and 0005, as the statements of
-- internal/project/store.go meet it. What the foreign keys refer to is left out.
pub mod Laws
use tenant_api_platform.Prelude.{
  ℕ, ◌+◌, Bool, true, false, not, ◌&&◌, ◌||◌, Result, ok, err, internal, conflict, Option, none,
  some, List, [], ◌∷◌, ◌++◌, ltb, leb, ◌==◌, if◌then◌else◌, find, select, update, any, length,
}
use tenant_api_platform.Prelude.Runes.{Runes, runes_eq}
use tenant_api_platform.Audit.{Entry, is_some}
use tenant_api_platform.Db.{Tx, pure, check, gets, modify, ◌>>=◌, ◌>>◌}
use tenant_api_platform.Invoice.Tables.{max_int32, exactly_one}
use tenant_api_platform.Project.Slug.{slug_ok}

-- A row of `projects`.
pub record ProjectRow : Type 0 where
  pub id : ℕ
  pub tenant_id : ℕ
  pub name : Runes
  pub slug : Runes
  pub description : Runes
  pub version : ℕ
  pub created_by : Option ℕ
  pub created_by_key : Option ℕ
  pub created_at : ℕ
  pub updated_at : ℕ
  pub archived_at : Option ℕ

-- The audited form of a project.
pub record ProjectImage : Type 0 where
  pub id : ℕ
  pub name : Runes
  pub slug : Runes
  pub description : Runes
  pub version : ℕ
  pub archived_at : Option ℕ

pub record ProjectTables : Type 0 where
  pub projects : List ProjectRow
  pub trail : List (Entry ProjectImage)

-- The column types and CHECK constraints; length() counts characters.
unfoldable pub project_ok : ProjectRow → Bool
project_ok p =
    leb 1 (length p.name)
    && leb (length p.name) 200
    && slug_ok p.slug
    && leb (length p.description) 2000
    && ltb 0 p.version
    && leb p.version max_int32
    && exactly_one p.created_by p.created_by_key

abbrev pub not_archived : ProjectRow → Bool
not_archived p = not (is_some p.archived_at)

abbrev pub in_tenant : ℕ → ℕ → ProjectRow → Bool
in_tenant id tenant_id p = p.id == id && p.tenant_id == tenant_id

-- The index projects_tenant_slug_live_idx.
abbrev pub takes_slug : ProjectRow → ProjectRow → Bool
takes_slug p x = x.tenant_id == p.tenant_id && runes_eq x.slug p.slug && not_archived x

-- INSERT INTO projects.
unfoldable pub insert_project : ProjectRow → Tx ProjectTables (Unit {0})
insert_project p = do
  check (project_ok p) internal
  same_id ← gets (λ t. any (λ x. x.id == p.id) t.projects)
  check (not same_id) conflict
  same_slug ← gets (λ t. any (takes_slug p) t.projects)
  check (not same_slug) conflict
  modify (λ t. record t { projects = t.projects ++ p ∷ [] })

abbrev rewrite_found :
    (ProjectRow → Bool)
    → (ProjectRow → ProjectRow)
    → Option ProjectRow
    → Tx ProjectTables (Option ProjectRow)
rewrite_found p f none = pure none
rewrite_found p f (some x) = do
  check (project_ok (f x)) internal
  modify (λ t. record t { projects = update p f t.projects })
  pure (some (f x))

-- UPDATE projects … WHERE p RETURNING, for a `p` that pins the primary key and an `f` that keeps what
-- the indexes are on, or takes the row out of the second.
unfoldable pub rewrite_project :
    (ProjectRow → Bool) → (ProjectRow → ProjectRow) → Tx ProjectTables (Option ProjectRow)
rewrite_project p f = do found ← gets (λ t. find p t.projects); rewrite_found p f found
