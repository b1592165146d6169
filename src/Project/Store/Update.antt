-- ===== src/Project/Store/Update.antt =====
-- internal/project/store.go: Update.
--
-- A closure that sets `outcome` and returns nil commits, and the outcome is then the method's error:
-- such a closure returns the outcome as its value. An expected version beyond the column's type, which
-- the driver does not send, is compared like any other.
use tenant_api_platform.Prelude.{
  ℕ, ◌+◌, Bool, false, not, ◌&&◌, ◌||◌, Result, ok, err, no_scope, not_found, version_conflict,
  invalid, Option, none, some, ltb, ◌==◌, if◌then◌else◌, find,
}
use tenant_api_platform.Prelude.Int64.{ℤ, pos, leb_ℤ, eqb_ℤ}
use tenant_api_platform.Prelude.Runes.{Runes, runes, byte_len, trim_space}
use tenant_api_platform.Audit.{is_some, is_empty}
use tenant_api_platform.Db.{Tx, pure, gets, with_identity_tx, ◌>>=◌, ◌>>◌}
use tenant_api_platform.Tenant.{Authorized, auth_valid, identity}
use tenant_api_platform.Project.Tables.{
  ProjectRow, ProjectTables, not_archived, in_tenant, rewrite_project,
}
use tenant_api_platform.Project.Store.{ProjectCall, project_image, image_or_zero, audit_project}

-- UpdateInput: a field that is `none` is left unchanged.
pub record UpdateInput : Type 0 where
  pub name : Option Runes
  pub description : Option Runes
  pub expected_version : ℤ

-- COALESCE.
abbrev pub or_kept : Option Runes → Runes → Runes
or_kept none old = old
or_kept (some new) old = new

-- The SET list and the WHERE clause of Update.
unfoldable pub edited : ℕ → UpdateInput → ProjectRow → ProjectRow
edited now i p = record p {
  name = or_kept i.name p.name;
  description = or_kept i.description p.description;
  version = p.version + 1;
  updated_at = now;
}

abbrev pub at_version : ℕ → ℕ → ℤ → ProjectRow → Bool
at_version id tenant_id expected p =
    in_tenant id tenant_id p && eqb_ℤ (pos p.version) expected && not_archived p

-- Zero rows: which of the three causes.
abbrev pub why_not_updated : Option ProjectRow → Result ProjectRow
why_not_updated none = err not_found
why_not_updated (some p) = if is_some p.archived_at then err not_found else err version_conflict

abbrev pub on_updated :
    ProjectCall
    → Authorized
    → ℕ
    → Option ProjectRow
    → Option ProjectRow
    → Tx ProjectTables (Result ProjectRow)
on_updated call auth id before (some p) = do
  audit_project call auth (runes "project.update") p (some (image_or_zero before))
      (some (project_image p))
  pure (ok p)
on_updated call auth id before none = do
  current ← gets (λ t. find (in_tenant id auth.scope.id) t.projects)
  pure (why_not_updated current)

unfoldable pub update_project_tx :
    ProjectCall → Authorized → ℕ → UpdateInput → Tx ProjectTables (Result ProjectRow)
update_project_tx call auth id i = do
  before ← gets (λ t. find (in_tenant id auth.scope.id) t.projects)
  updated ← rewrite_project (at_version id auth.scope.id i.expected_version) (edited call.now i)
  on_updated call auth id before updated

-- What a method returns of a closure that sets its outcome.
abbrev pub outcome_of : {A : Type 0} → Result (Result A) → Result A
outcome_of (ok r) = r
outcome_of (err e) = err e

abbrev pub settle_outcome : {S A : Type 0} → Result (Result A) × S → Result A × S
settle_outcome (r, s) = (outcome_of r, s)

-- The checks on the fields that are given, with the name trimmed.
abbrev pub valid_name : Option Runes → Result (Option Runes)
valid_name none = ok none
valid_name (some name) =
    if is_empty (trim_space name) || ltb 200 (byte_len (trim_space name))
    then err (invalid "name")
    else ok (some (trim_space name))

abbrev pub long_description : Option Runes → Bool
long_description none = false
long_description (some d) = ltb 2000 (byte_len d)

abbrev pub with_name : UpdateInput → Result (Option Runes) → Result UpdateInput
with_name i (err e) = err e
with_name i (ok name) =
    if long_description i.description
    then err (invalid "description")
    else ok (record i { name = name })

unfoldable pub validate_update : UpdateInput → Result UpdateInput
validate_update i =
    if leb_ℤ i.expected_version (pos 0)
    then err (invalid "expected_version")
    else with_name i (valid_name i.name)

abbrev pub update_validated :
    ProjectCall
    → Authorized
    → ℕ
    → Result UpdateInput
    → ProjectTables
    → Result ProjectRow × ProjectTables
update_validated call auth id (err e) t = (err e, t)
update_validated call auth id (ok i) t =
    settle_outcome (with_identity_tx (identity auth) (update_project_tx call auth id i) t)

-- Update.
unfoldable pub update_project :
    ProjectCall → Authorized → ℕ → UpdateInput → ProjectTables → Result ProjectRow × ProjectTables
update_project call auth id i t =
    if not (auth_valid auth)
    then (err no_scope, t)
    else if id == 0
    then (err not_found, t)
    else update_validated call auth id (validate_update i) t
