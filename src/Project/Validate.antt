-- ===== src/Project/Validate.antt =====
-- internal/project/project.go: what a caller may ask for.
pub mod Laws
use tenant_api_platform.Prelude.{
  ℕ, Bool, true, false, not, ◌&&◌, ◌||◌, Result, ok, err, invalid, Option, List, [], ◌∷◌, ltb, leb,
  ◌==◌, if◌then◌else◌,
}
use tenant_api_platform.Prelude.Int64.{ℤ, pos, leb_ℤ, ltb_ℤ, pos_part}
use tenant_api_platform.Prelude.Runes.{Runes, byte_len, trim_space}
use tenant_api_platform.Audit.{is_empty}
use tenant_api_platform.Project.Slug.{slug_ok, slugify}

pub record ProjectInput : Type 0 where
  pub name : Runes
  pub description : Runes
  pub slug : Runes

-- What Slugify calls.
pub record Slugs : Type 0 where
  pub lower : ℕ → ℕ
  pub suffix : Runes

abbrev pub slug_or_derived : Slugs → Runes → Runes → Runes
slug_or_derived env name slug = if is_empty slug then slugify env.lower env.suffix name else slug

-- validateCreate.
unfoldable pub validate_project : Slugs → ProjectInput → Result ProjectInput
validate_project env i =
    let name = trim_space i.name in
    let slug = slug_or_derived env name i.slug in
    if is_empty name || ltb 200 (byte_len name)
    then err (invalid "name")
    else if ltb 2000 (byte_len i.description)
    then err (invalid "description")
    else if not (slug_ok slug)
    then err (invalid "slug")
    else ok (record { name = name; description = i.description; slug = slug })

abbrev pub project_page_size : ℕ
project_page_size = 20

abbrev pub max_project_page_size : ℕ
max_project_page_size = 100

-- NormalizePageSize.
unfoldable pub clamp_page_size : ℤ → ℕ
clamp_page_size requested =
    if leb_ℤ requested (pos 0)
    then project_page_size
    else if ltb_ℤ (pos max_project_page_size) requested
    then max_project_page_size
    else pos_part requested
