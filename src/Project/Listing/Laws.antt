-- ===== src/Project/Listing/Laws.antt =====
-- A client that pages through the projects has them all (internal/project/store.go).
use mathlib.Core.List.{Perm}
use tenant_api_platform.Prelude.{
  ℕ, suc, ◌<◌, true, none, some, List, [], ◌∷◌, ◌++◌, map, ◌≡◌, refl, arith, select, length, All,
}
use tenant_api_platform.Prelude.Int64.{ℤ}
use tenant_api_platform.Tenant.{Authorized, auth_valid}
use tenant_api_platform.Tenant.Laws.{with_identity_tx-auth}
use tenant_api_platform.Listing.{newer, follow}
use tenant_api_platform.Listing.Order.{Apart, Descending}
use tenant_api_platform.Listing.Walk.{successor}
use tenant_api_platform.Listing.Edited.{itself, follow_positions}
use tenant_api_platform.Project.Validate.{clamp_page_size}
use tenant_api_platform.Project.Tables.{ProjectRow, ProjectTables}
use tenant_api_platform.Project.Tables.Laws.{SoleIds}
use tenant_api_platform.Project.Listing.{
  ProjectFilter, project_key, shows_project, list_projects_tx, list_projects,
}

clamp_page_size-positive : (n : ℤ) → 0 < clamp_page_size n
unfolding clamp_page_size
clamp_page_size-positive n = ground arith

SoleIds-Apart : (ps : List ProjectRow) → SoleIds ps → Apart project_key ps
SoleIds-Apart [] h = tt
SoleIds-Apart (p ∷ ps) (h, hs) = (h, SoleIds-Apart ps hs)

-- The table when the i-th request arrives.
abbrev pub grown :
    ProjectTables → (ℕ → ProjectRow → ProjectRow) → (ℕ → List ProjectRow) → ℕ → ProjectTables
grown t edit later i = record t { projects = map (edit i) t.projects ++ later i }

module _ (auth : Authorized) (filter : ProjectFilter) (limit : ℤ) (t : ProjectTables)
    (edit : ℕ → ProjectRow → ProjectRow) (later : ℕ → List ProjectRow) where
  -- A client of a valid caller that asks for the next page as long as one is announced needs no more
  -- requests than there are rows, and one, to meet each row of its tenant that the filter selects
  -- once, newest first, whatever edits are made between its requests, if the ids differ, the edits
  -- leave each row's id and time of creation and whether the filter selects it (so none archives a
  -- row that it would then leave out), and the rows inserted are newer than those there at the first
  -- request, by time or, within one time, by id.
  pub follow-list_projects :
      (fuel : ℕ)
      → auth_valid auth ≡ true
      → SoleIds t.projects
      → ((i : ℕ) (p : ProjectRow) → project_key (edit i p) ≡ project_key p)
      → ((i : ℕ) (p : ProjectRow)
          → shows_project auth.scope.id filter (edit i p) ≡ shows_project auth.scope.id filter p)
      → later 0 ≡ []
      → All
          (λ x. (i : ℕ) → All (λ y. newer (project_key y) (project_key x) ≡ true) (later i))
          t.projects
      → length t.projects < fuel
      → (all : List ProjectRow) × (follow
            (λ i after. (list_projects auth filter after limit (grown t edit later i)).0)
            fuel
            0
            none
          ≡ some all)
        × Perm
            (map project_key all)
            (map project_key (select (shows_project auth.scope.id filter) t.projects))
        × Descending itself (map project_key all)
  unfolding list_projects
  follow-list_projects fuel valid sole stays kept now fresh h =
      let (m, e) = successor (clamp_page_size limit) (clamp_page_size-positive limit) in
      follow_positions project_key (shows_project auth.scope.id filter) m t.projects
        (SoleIds-Apart t.projects sole) edit stays kept later
        (λ i after. (list_projects auth filter after limit (grown t edit later i)).0)
        (λ i after.
          rw
            (
              valid,
              e,
              with_identity_tx-auth auth (list_projects_tx auth filter after (suc m))
                  (grown t edit later i) valid,
            )
            refl)
        fresh fuel now h
