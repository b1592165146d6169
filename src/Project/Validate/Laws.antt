-- ===== src/Project/Validate/Laws.antt =====
-- A project without a slug of its own is never refused for its slug (internal/project/project.go).
use tenant_api_platform.Prelude.{true, false, ok, [], ◌≡◌, arith, ltb, length, every}
use tenant_api_platform.Prelude.Runes.{Runes, byte_len, trim_space}
use tenant_api_platform.Audit.{is_empty}
use tenant_api_platform.Project.Slug.{slug_or_dash, slugify}
use tenant_api_platform.Project.Slug.Laws.{slugify-slug_ok}
use tenant_api_platform.Project.Validate.{Slugs, validate_project}

-- A project that names no slug is accepted whenever its name, trimmed, is not empty and at most 200
-- bytes long and its description at most 2000, with the trimmed name and a derived slug, whatever
-- runes the name is made of, where the random suffix has six lower-case letters and digits.
pub validate_project-slugify :
    (env : Slugs) (name description : Runes)
    → every slug_or_dash env.suffix ≡ true
    → length env.suffix ≡ 6
    → is_empty (trim_space name) ≡ false
    → ltb 200 (byte_len (trim_space name)) ≡ false
    → ltb 2000 (byte_len description) ≡ false
    → validate_project env (record { name = name; description = description; slug = [] })
      ≡ ok (record {
        name = trim_space name;
        description = description;
        slug = slugify env.lower env.suffix (trim_space name);
      })
unfolding validate_project
validate_project-slugify env name description clean six full short brief =
    let fine = slugify-slug_ok env.suffix clean six env.lower (trim_space name) in
    ground (arith, full, short, brief, fine)
