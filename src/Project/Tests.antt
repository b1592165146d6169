-- ===== src/Project/Tests.antt =====
-- Projects that are named (internal/project/project.go).
use tenant_api_platform.Prelude.{ok, false, [], ◌≡◌, refl, ltb, if◌then◌else◌, ◌&&◌, leb, ◌+◌}
use tenant_api_platform.Prelude.Runes.{
  Runes, runes, byte_len, trim_space, trim_left, trim_right, cons_trimmed, is_space,
}
use tenant_api_platform.Audit.{is_empty}
use tenant_api_platform.Project.Slug.{slugify}
use tenant_api_platform.Project.Validate.{Slugs, validate_project}
use tenant_api_platform.Project.Validate.Laws.{validate_project-slugify}

abbrev slugs : Slugs
slugs = record {
  lower = λ r. if leb 0x41 r && leb r 0x5a then r + 0x20 else r;
  suffix = runes "0a1b2c";
}

abbrev name : Runes
name = runes " Q3: "

full : is_empty (trim_space name) ≡ false
unfolding trim_space trim_left trim_right cons_trimmed is_space
full = refl

short : ltb 200 (byte_len (trim_space name)) ≡ false
unfolding trim_space trim_left trim_right cons_trimmed is_space byte_len
short = refl

brief : ltb 2000 (byte_len []) ≡ false
unfolding byte_len
brief = refl

validate_project-slugify_example :
    validate_project slugs (record { name = name; description = []; slug = [] })
    ≡ ok (record {
      name = trim_space name;
      description = [];
      slug = slugify slugs.lower slugs.suffix (trim_space name);
    })
validate_project-slugify_example = validate_project-slugify slugs name [] refl refl full short brief
