-- ===== src/Project/Store/Contract.antt =====
-- What the project store promises, without tables: for each identifier and tenant a register that
-- holds a project or nothing, of which a request reads or changes the one that it names.
pub mod Steps
pub mod Refine
use mathlib.Core.Option
use tenant_api_platform.Prelude.{
  ℕ, ◌+◌, Bool, true, false, not, ◌&&◌, Result, ok, err, internal, no_scope, not_found,
  version_conflict, Option, none, some, List, [], ◌∷◌, ◌==◌, if◌then◌else◌,
}
use tenant_api_platform.Prelude.Int64.{pos, eqb_ℤ}
use tenant_api_platform.Audit.{is_some}
use tenant_api_platform.Tenant.{Authorized, auth_valid}
use tenant_api_platform.Project.Tables.{ProjectRow, ProjectTables, project_ok}
use tenant_api_platform.Project.Store.{ProjectCall, get_project}
use tenant_api_platform.Project.Store.Update.{UpdateInput, validate_update, update_project}
use tenant_api_platform.Project.Store.Archive.{archive_project}

abbrev pub Registers : Type 0
Registers = ℕ → ℕ → Option ProjectRow

pub data Action : Type 0 where
  read : Action
  edit : UpdateInput → Action
  retire : Action

pub record Ask : Type 0 where
  pub call : ProjectCall
  pub auth : Authorized
  pub id : ℕ
  pub action : Action

pub data StoreAnswer : Type 0 where
  of_project : Result ProjectRow → StoreAnswer
  of_archive : Result (Unit {0}) → StoreAnswer

-- The project after an edit and after its archiving.
abbrev pub rewritten_by : ℕ → UpdateInput → ProjectRow → ProjectRow
rewritten_by now i p = record {
  id = p.id;
  tenant_id = p.tenant_id;
  name = Option.get_or i.name p.name;
  slug = p.slug;
  description = Option.get_or i.description p.description;
  version = p.version + 1;
  created_by = p.created_by;
  created_by_key = p.created_by_key;
  created_at = p.created_at;
  updated_at = now;
  archived_at = p.archived_at;
}

abbrev pub archived_by : ℕ → ProjectRow → ProjectRow
archived_by now p = record {
  id = p.id;
  tenant_id = p.tenant_id;
  name = p.name;
  slug = p.slug;
  description = p.description;
  version = p.version + 1;
  created_by = p.created_by;
  created_by_key = p.created_by_key;
  created_at = p.created_at;
  updated_at = now;
  archived_at = some now;
}

abbrev pub read_answer : Option ProjectRow → Result ProjectRow
read_answer none = err not_found
read_answer (some p) = ok p

-- An edit goes through only for a project that is not archived, at the version that the caller
-- expects; the version then grows by one.
abbrev pub edit_answer : ℕ → UpdateInput → Option ProjectRow → Result ProjectRow
edit_answer now i none = err not_found
edit_answer now i (some p) =
    if is_some p.archived_at
    then err not_found
    else if not (eqb_ℤ (pos p.version) i.expected_version)
    then err version_conflict
    else if project_ok (rewritten_by now i p)
    then ok (rewritten_by now i p)
    else err internal

abbrev pub edit_cell : Result ProjectRow → Option ProjectRow → Option ProjectRow
edit_cell (ok p) old = some p
edit_cell (err e) old = old

-- Archiving twice is archiving once.
abbrev pub retire_answer : ℕ → Option ProjectRow → Result (Unit {0})
retire_answer now none = err not_found
retire_answer now (some p) =
    if is_some p.archived_at
    then ok tt
    else if project_ok (archived_by now p)
    then ok tt
    else err internal

abbrev pub retire_cell : ℕ → Option ProjectRow → Option ProjectRow
retire_cell now none = none
retire_cell now (some p) =
    if is_some p.archived_at
    then some p
    else if project_ok (archived_by now p)
    then some (archived_by now p)
    else some p

abbrev pub put : ℕ → ℕ → Option ProjectRow → Registers → Registers
put id tenant_id cell v i tn = if i == id && tn == tenant_id then cell else v i tn

abbrev pub respond_edit : Ask → Result UpdateInput → Registers → StoreAnswer × Registers
respond_edit a (err e) v = (of_project (err e), v)
respond_edit a (ok i) v = (
  of_project (edit_answer a.call.now i (v a.id a.auth.scope.id)),
  put a.id a.auth.scope.id
      (edit_cell (edit_answer a.call.now i (v a.id a.auth.scope.id)) (v a.id a.auth.scope.id)) v,
)

abbrev pub respond_to : Ask → Action → Registers → StoreAnswer × Registers
respond_to a read v = (of_project (read_answer (v a.id a.auth.scope.id)), v)
respond_to a (edit i) v = respond_edit a (validate_update i) v
respond_to a retire v = (
  of_archive (retire_answer a.call.now (v a.id a.auth.scope.id)),
  put a.id a.auth.scope.id (retire_cell a.call.now (v a.id a.auth.scope.id)) v,
)

abbrev pub refuse : Action → StoreAnswer
refuse read = of_project (err no_scope)
refuse (edit i) = of_project (err no_scope)
refuse retire = of_archive (err no_scope)

abbrev pub unnamed : Action → StoreAnswer
unnamed read = of_project (err not_found)
unnamed (edit i) = of_project (err not_found)
unnamed retire = of_archive (err not_found)

-- The answer of the registers, and the registers after it.
abbrev pub respond : Ask → Registers → StoreAnswer × Registers
respond a v =
    if not (auth_valid a.auth)
    then (refuse a.action, v)
    else if a.id == 0
    then (unnamed a.action, v)
    else respond_to a a.action v

unfoldable pub respond_all : List Ask → Registers → List StoreAnswer
respond_all [] v = []
respond_all (a ∷ rest) v = (respond a v).0 ∷ respond_all rest (respond a v).1

abbrev pub as_project : Result ProjectRow × ProjectTables → StoreAnswer × ProjectTables
as_project (r, t) = (of_project r, t)

abbrev pub as_archive : Result (Unit {0}) × ProjectTables → StoreAnswer × ProjectTables
as_archive (r, t) = (of_archive r, t)

-- The store's method for an action.
abbrev pub serve_action : Ask → Action → ProjectTables → StoreAnswer × ProjectTables
serve_action a read t = as_project (get_project a.auth a.id t)
serve_action a (edit i) t = as_project (update_project a.call a.auth a.id i t)
serve_action a retire t = as_archive (archive_project a.call a.auth a.id t)

unfoldable pub serve_all : List Ask → ProjectTables → List StoreAnswer
serve_all [] t = []
serve_all (a ∷ rest) t =
    (serve_action a a.action t).0 ∷ serve_all rest (serve_action a a.action t).1
