-- ===== src/Project/Store/Tests.antt =====
-- A project that is created, edited and archived (internal/project/store.go).
use tenant_api_platform.Prelude.{◌+◌, ok, some, none, List, [], ◌∷◌, ◌≡◌, refl, leb, if◌then◌else◌}
use tenant_api_platform.Prelude.Int64.{pos}
use tenant_api_platform.Prelude.Runes.{
  runes, byte_len, trim_space, trim_left, trim_right, cons_trimmed, is_space, runes_eq,
}
use tenant_api_platform.Authz.Roles.{admin, valid_role}
use tenant_api_platform.Db.{with_identity_tx, identity_valid}
use tenant_api_platform.Tenant.{
  Authorized, kind_human, auth_valid, scope_valid, is_machine, identity,
}
use tenant_api_platform.Audit.{actor_from_authorized, write, validate_entry}
use tenant_api_platform.Project.Slug.{slug_ok}
use tenant_api_platform.Project.Validate.{Slugs, ProjectInput, validate_project}
use tenant_api_platform.Project.Tables.{ProjectRow, ProjectTables, insert_project, project_ok}
use tenant_api_platform.Project.Tables.Laws.{view}
use tenant_api_platform.Project.Store.{
  ProjectCall, audit_project, project_image, new_project, create_project, create_project_tx,
  get_project,
}
use tenant_api_platform.Project.Store.Fresh.{get_project-create_project}
use tenant_api_platform.Project.Store.Contract.{Ask, read, edit, retire, respond_all, serve_all}
use tenant_api_platform.Project.Store.Contract.Refine.{serve_all-respond_all}

abbrev alice : Authorized
alice = record {
  scope = record { id = 7 };
  kind = kind_human;
  user_id = 3;
  role = admin;
  key_id = 0;
}

abbrev call : ProjectCall
call = record { now = 50; project_id = 9; request_id = [] }

abbrev row : ProjectRow
row = record {
  id = 5;
  tenant_id = 7;
  name = runes "Atlas";
  slug = runes "atlas";
  description = [];
  version = 1;
  created_by = some 3;
  created_by_key = none;
  created_at = 10;
  updated_at = 10;
  archived_at = none;
}

abbrev tables : ProjectTables
tables = record { projects = row ∷ []; trail = [] }

abbrev renames : Ask
renames = record {
  call = call;
  auth = alice;
  id = 5;
  action =
      edit (record { name = some (runes " Borea "); description = none; expected_version = pos 1 });
}

abbrev asks : List Ask
asks =
    renames
    ∷ record renames { action = retire }
    ∷ record renames { action = retire }
    ∷ record renames { action = read }
    ∷ renames
    ∷ []

serve_all-respond_all_example : serve_all asks tables ≡ respond_all asks (view tables)
serve_all-respond_all_example = serve_all-respond_all asks tables (tt, tt)

abbrev slugs : Slugs
slugs = record { lower = λ r. if leb 0x41 r then r + 0x20 else r; suffix = runes "0a1b2c" }

abbrev input : ProjectInput
input = record { name = runes "Borea"; slug = runes "borea"; description = [] }

created :
    create_project slugs call alice input tables
    ≡ (ok (new_project call alice input), (create_project slugs call alice input tables).1)
unfolding create_project auth_valid scope_valid valid_role validate_project trim_space trim_left
    trim_right cons_trimmed is_space byte_len slug_ok with_identity_tx identity identity_valid
    create_project_tx insert_project project_ok runes_eq audit_project actor_from_authorized
    is_machine write validate_entry new_project project_image
created = refl

get_project-create_project_example :
    get_project alice
      (new_project call alice input).id
      (create_project slugs call alice input tables).1
    ≡ (ok (new_project call alice input), (create_project slugs call alice input tables).1)
get_project-create_project_example =
    get_project-create_project slugs call alice input tables
      (create_project slugs call alice input tables).1 (new_project call alice input) refl created
