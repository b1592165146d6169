-- ===== src/Project/Slug.antt =====
-- internal/project/project.go: Slugify, SlugifyForCollision and the pattern of a slug.
--
-- `lower` is unicode.ToLower; `suffix` is what idgen.ShortSuffix(6) drew.
pub mod Laws
use tenant_api_platform.Prelude.{
  ℕ, ◌+◌, Bool, true, false, not, ◌&&◌, ◌||◌, List, [], ◌∷◌, ◌++◌, map, ltb, leb, ◌==◌,
  if◌then◌else◌, length, take, every,
}
use tenant_api_platform.Prelude.Runes.{Runes, trim_space}

abbrev pub dash : ℕ
dash = 0x2d

-- a-z and 0-9.
abbrev pub slug_rune : ℕ → Bool
slug_rune r = leb 0x61 r && leb r 0x7a || leb 0x30 r && leb r 0x39

abbrev pub slug_or_dash : ℕ → Bool
slug_or_dash r = slug_rune r || r == dash

-- slugPattern.
unfoldable pub slug_ok : Runes → Bool
slug_ok [] = false
slug_ok (r ∷ s) = slug_rune r && every slug_or_dash s && leb 1 (length s) && leb (length s) 62

-- One rune of the name: what the builder holds, and whether it ends in a dash.
abbrev pub slug_step : ℕ → Runes × Bool → Runes × Bool
slug_step r (b, last_dash) =
    if slug_rune r
    then (b ++ r ∷ [], false)
    else if last_dash
    then (b, last_dash)
    else (b ++ dash ∷ [], true)

unfoldable pub slug_loop : Runes → Runes × Bool → Runes
slug_loop [] st = st.0
slug_loop (r ∷ rs) st =
    let next = slug_step r st in
    let rest = slug_loop rs next in if leb 62 (length next.0) then next.0 else rest

-- strings.TrimLeft(s, "-").
unfoldable pub undash_left : Runes → Runes
undash_left [] = []
undash_left (r ∷ s) = let rest = undash_left s in if r == dash then rest else r ∷ s

abbrev pub cons_undashed : ℕ → Runes → Runes
cons_undashed r [] = if r == dash then [] else r ∷ []
cons_undashed r (x ∷ s) = r ∷ x ∷ s

-- strings.TrimRight(s, "-").
unfoldable pub undash_right : Runes → Runes
undash_right [] = []
undash_right (r ∷ s) = cons_undashed r (undash_right s)

abbrev pub or_p : Runes → Runes
or_p [] = 0x70 ∷ []
or_p (r ∷ s) = r ∷ s

abbrev pub lengthen : Runes → Runes → Runes
lengthen suffix slug = if ltb (length slug) 2 then or_p slug ++ dash ∷ suffix else slug

-- Slugify.
unfoldable pub slugify : (ℕ → ℕ) → Runes → Runes → Runes
slugify lower suffix name =
    lengthen suffix
      (undash_right (undash_left (slug_loop (map lower (trim_space name)) ([], true))))

abbrev pub capped : Runes → Runes
capped base = if ltb 55 (length base) then undash_right (take 55 base) else base

-- SlugifyForCollision, with the suffix that Slugify draws and the one that it draws itself.
unfoldable pub slugify_for_collision : (ℕ → ℕ) → Runes → Runes → Runes → Runes
slugify_for_collision lower suffix again name = capped (slugify lower suffix name) ++ dash ∷ again
