-- ===== src/Project/Slug/Laws.antt =====
-- A derived slug is one that the pattern accepts (internal/project/project.go).
use tenant_api_platform.Prelude.{
  ℕ, zero, suc, ◌≤◌, Bool, true, false, [], ◌∷◌, ◌++◌, map, ◌≡◌, refl, ◌∙◌, arith, inl, inr, ◌⊎◌,
  Bool-cases, ltb, leb, ◌==◌, length, length-append, take, every, every-append,
}
use tenant_api_platform.Prelude.Runes.{Runes, trim_space}
use tenant_api_platform.Project.Slug.{
  dash, slug_rune, slug_or_dash, slug_ok, slug_step, slug_loop, undash_left, undash_right,
  cons_undashed, or_p, lengthen, slugify, capped, slugify_for_collision,
}

-- Empty, or a run of the pattern's runes that starts well.
abbrev Stem : Runes → Type 0
Stem [] = Unit
Stem (r ∷ s) = (slug_rune r ≡ true) × (every slug_or_dash s ≡ true)

Stem-snoc :
    (b : Runes) (r : ℕ)
    → Stem b
    → slug_or_dash r ≡ true
    → (slug_rune r ≡ true) ⊎ (1 ≤ length b)
    → Stem (b ++ r ∷ [])
Stem-snoc [] r stem ok_rune (inl h) = (h, refl)
Stem-snoc [] r stem ok_rune (inr h) = absurd (omega arith)
Stem-snoc (x ∷ b) r (first, rest) ok_rune h =
    (first, every-append slug_or_dash b (r ∷ []) ∙ ground (arith, rest, ok_rune))

-- What the builder holds between two runes of the name.
record Building (st : Runes × Bool) : Type 0 where
  stem : Stem st.0
  short : length st.0 ≤ 61
  led : (st.1 ≡ true) ⊎ (1 ≤ length st.0)

record Built (b : Runes) : Type 0 where
  stem : Stem b
  short : length b ≤ 62

led_by : (b : Runes) (last : Bool) → last ≡ false → (last ≡ true) ⊎ (1 ≤ length b) → 1 ≤ length b
led_by b last k (inl e) = cc
led_by b last k (inr h) = h

step-Built :
    (r : ℕ) (st : Runes × Bool)
    → Building st
    → Built (slug_step r st).0 × (((slug_step r st).1 ≡ true) ⊎ (1 ≤ length (slug_step r st).0))
step-Built r (b, last) s = elim (Bool-cases (slug_rune r)) [
  | inl e ↦ rw e (
    record {
      stem = Stem-snoc b r s.stem (ground (arith, e)) (inl e);
      short = omega (arith, s.short, length-append b (r ∷ []));
    },
    inr (omega (arith, length-append b (r ∷ []))),
  )
  | inr e ↦ elim (Bool-cases last) [
    | inl k ↦ rw (e, k) (record { stem = s.stem; short = omega (arith, s.short) }, inl refl)
    | inr k ↦
        rw (e, k)
          (
            record {
              stem = Stem-snoc b dash s.stem refl (inr (led_by b last k s.led));
              short = omega (arith, s.short, length-append b (dash ∷ []));
            },
            inl refl,
          )
  ]
]

slug_loop-Built : (rs : Runes) (st : Runes × Bool) → Building st → Built (slug_loop rs st)
unfolding slug_loop
slug_loop-Built [] st s = record { stem = s.stem; short = omega (arith, s.short) }
slug_loop-Built (r ∷ rs) st s =
    let (built, led) = step-Built r st s in
    elim (Bool-cases (leb 62 (length (slug_step r st).0))) [
      | inl e ↦ rw e built
      | inr e ↦ rw e (
          slug_loop-Built rs (slug_step r st)
            (record { stem = built.stem; short = ground (arith, e); led = led }))
    ]

dash_after :
    (r : ℕ) (t : Runes) (n : ℕ)
    → slug_or_dash r ≡ true
    → every slug_or_dash t ≡ true
    → length t ≤ n
    → (every slug_or_dash (cons_undashed r t) ≡ true) × (length (cons_undashed r t) ≤ suc n)
dash_after r [] n h k shorter = (ground (arith, h), ground arith)
dash_after r (x ∷ t) n h k shorter = (ground (arith, h, k), omega (arith, shorter))

Stem-after :
    (r : ℕ) (t : Runes) (n : ℕ)
    → slug_rune r ≡ true
    → every slug_or_dash t ≡ true
    → length t ≤ n
    → Stem (cons_undashed r t) × (length (cons_undashed r t) ≤ suc n)
Stem-after r [] n h k shorter = elim (Bool-cases (r == dash)) [
  | inl e ↦ absurd (ground arith)
  | inr e ↦ rw e ((h, refl), omega arith)
]
Stem-after r (x ∷ t) n h k shorter = ((h, k), omega (arith, shorter))

-- A stem trimmed of its trailing dashes is a stem, no longer, and as empty as it was.
undash_right-every :
    (b : Runes)
    → every slug_or_dash b ≡ true
    → (every slug_or_dash (undash_right b) ≡ true) × (length (undash_right b) ≤ length b)
unfolding undash_right
undash_right-every [] h = (refl, omega arith)
undash_right-every (r ∷ b) h =
    let (kept, shorter) = undash_right-every b (ground (arith, h)) in
    dash_after r (undash_right b) (length b) (ground (arith, h)) kept shorter

undash_right-Stem :
    (b : Runes) → Stem b → Stem (undash_right b) × (length (undash_right b) ≤ length b)
unfolding undash_right
undash_right-Stem [] stem = (tt, omega arith)
undash_right-Stem (r ∷ b) (first, rest) =
    let (kept, shorter) = undash_right-every b rest in
    Stem-after r (undash_right b) (length b) first kept shorter

undash_left-Stem : (b : Runes) → Stem b → undash_left b ≡ b
unfolding undash_left
undash_left-Stem [] stem = refl
undash_left-Stem (r ∷ b) (first, rest) = ground (arith, first)

Stem→slug_ok : (s : Runes) → Stem s → 2 ≤ length s → length s ≤ 63 → slug_ok s ≡ true
unfolding slug_ok
Stem→slug_ok [] stem low high = absurd (omega arith)
Stem→slug_ok (r ∷ s) (first, rest) low high = ground (arith, first, rest)

module _ (suffix : Runes) (clean : every slug_or_dash suffix ≡ true) (six : length suffix ≡ 6) where
  -- A stem with a dash and a suffix after it.
  suffixed :
      (s : Runes) → Stem s → 1 ≤ length s → length s ≤ 56 → slug_ok (s ++ dash ∷ suffix) ≡ true
  unfolding slug_ok
  suffixed [] stem low high = absurd (omega arith)
  suffixed (r ∷ s) (first, rest) low high =
      let every_rune = every-append slug_or_dash s (dash ∷ suffix) in
      let size = length-append s (dash ∷ suffix) in
      ground (arith, first, rest, every_rune, size, clean, six)

  or_p-Stem : (s : Runes) → Stem s → Stem (or_p s)
  or_p-Stem [] stem = (refl, refl)
  or_p-Stem (r ∷ s) stem = stem

  or_p-length : (s : Runes) → length s ≤ 1 → (1 ≤ length (or_p s)) × (length (or_p s) ≤ 1)
  or_p-length [] h = (omega arith, omega arith)
  or_p-length (r ∷ s) h = (omega arith, omega (arith, h))

  lengthen-slug_ok : (s : Runes) → Stem s → length s ≤ 62 → slug_ok (lengthen suffix s) ≡ true
  lengthen-slug_ok s stem short = elim (Bool-cases (ltb (length s) 2)) [
    | inl e ↦
        let (low, high) = or_p-length s (ground (arith, e)) in
        rw e (suffixed (or_p s) (or_p-Stem s stem) low (omega (arith, high)))
    | inr e ↦ rw e (Stem→slug_ok s stem (ground (arith, e)) (omega (arith, short)))
  ]

  -- A derived slug is always one that the pattern accepts, whatever the name, the empty one included,
  -- where the random suffix has six lower-case letters and digits.
  pub slugify-slug_ok : (lower : ℕ → ℕ) (name : Runes) → slug_ok (slugify lower suffix name) ≡ true
  unfolding slugify
  slugify-slug_ok lower name =
      let b = slug_loop (map lower (trim_space name)) ([], true) in
      let built =
        slug_loop-Built (map lower (trim_space name)) ([], true)
          (record { stem = tt; short = omega arith; led = inl refl }) in
      let (stem, shorter) = undash_right-Stem b built.stem in
      rw (undash_left-Stem b built.stem)
        (lengthen-slug_ok (undash_right b) stem (omega (arith, shorter, built.short)))

take-every :
    (n : ℕ) (s : Runes) → every slug_or_dash s ≡ true → every slug_or_dash (take n s) ≡ true
take-every zero s h = refl
take-every (suc n) [] h = refl
take-every (suc n) (x ∷ s) h = ground (arith, h, take-every n s)

length-take : (n : ℕ) (s : Runes) → length (take n s) ≤ n
length-take zero s = omega arith
length-take (suc n) [] = omega arith
length-take (suc n) (x ∷ s) = omega (arith, length-take n s)

nonempty_after : (r : ℕ) (t : Runes) → slug_rune r ≡ true → 1 ≤ length (cons_undashed r t)
nonempty_after r [] h = ground arith
nonempty_after r (x ∷ t) h = omega arith

undash_right-nonempty : (r : ℕ) (s : Runes) → slug_rune r ≡ true → 1 ≤ length (undash_right (r ∷ s))
unfolding undash_right
undash_right-nonempty r s h = nonempty_after r (undash_right s) h

-- A base cut to 55 runes.
capped-Stem :
    (s : Runes)
    → slug_ok s ≡ true
    → Stem (capped s) × (1 ≤ length (capped s)) × (length (capped s) ≤ 55)
unfolding slug_ok
capped-Stem [] h = cc
capped-Stem (r ∷ s) h = elim (Bool-cases (ltb 55 (length (r ∷ s)))) [
  | inl e ↦
      let head : slug_rune r ≡ true = ground (arith, h) in
      let tail : every slug_or_dash (take 54 s) ≡ true = take-every 54 s (ground (arith, h)) in
      let (stem, shorter) = undash_right-Stem (r ∷ take 54 s) (head, tail) in
      rw e
        (stem, undash_right-nonempty r (take 54 s) head, omega (arith, shorter, length-take 54 s))
  | inr e ↦ rw e ((ground (arith, h), ground (arith, h)), omega arith, ground (arith, e))
]

-- A slug derived a second time, because the first was taken, is one that the pattern accepts too,
-- whatever the name, where both suffixes have six lower-case letters and digits.
pub slugify_for_collision-slug_ok :
    (lower : ℕ → ℕ) (suffix again name : Runes)
    → every slug_or_dash suffix ≡ true
    → length suffix ≡ 6
    → every slug_or_dash again ≡ true
    → length again ≡ 6
    → slug_ok (slugify_for_collision lower suffix again name) ≡ true
unfolding slugify_for_collision
slugify_for_collision-slug_ok lower suffix again name clean six clean' six' =
    let (stem, low, high) =
      capped-Stem (slugify lower suffix name) (slugify-slug_ok suffix clean six lower name) in
    suffixed again clean' six' (capped (slugify lower suffix name)) stem low (omega (arith, high))
