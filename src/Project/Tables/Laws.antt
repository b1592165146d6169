-- ===== src/Project/Tables/Laws.antt =====
-- What an UPDATE by primary key does to the rows of a tenant (migration 0004_projects.sql).
use tenant_api_platform.Prelude.{
  ℕ, Bool, true, false, ◌&&◌, Option, none, some, Option-cases, List, [], ◌∷◌, ◌≡◌, refl, ap, ◌∙◌,
  arith, ◌==◌, if◌then◌else◌, find, find-update, find-eq-some, update, All, Bool-cases, inl, inr,
}
use tenant_api_platform.Project.Tables.{ProjectRow, ProjectTables, in_tenant}

-- The primary key.
abbrev pub SoleIds : List ProjectRow → Type 0
SoleIds [] = Unit
SoleIds (p ∷ ps) = All (λ x. (x.id == p.id) ≡ false) ps × SoleIds ps

-- What a tenant has under an identifier.
abbrev pub view : ProjectTables → ℕ → ℕ → Option ProjectRow
view t id tenant_id = find (in_tenant id tenant_id) t.projects

not_again :
    (id tenant_id : ℕ) (pw : ProjectRow → Bool)
    → ((x : ProjectRow) → pw x ≡ true → in_tenant id tenant_id x ≡ true)
    → (p : ProjectRow) → p.id ≡ id
    → (xs : List ProjectRow) → All (λ x. (x.id == p.id) ≡ false) xs
    → find pw xs ≡ none
not_again id tenant_id pw sub p same [] h = refl
not_again id tenant_id pw sub p same (x ∷ xs) (h, hs) = elim (Bool-cases (pw x)) [
  | inl e ↦ absurd (ground (arith, sub x e))
  | inr e ↦ rw e (not_again id tenant_id pw sub p same xs hs)
]

module _ (id tenant_id : ℕ) (pw : ProjectRow → Bool)
    (sub : (x : ProjectRow) → pw x ≡ true → in_tenant id tenant_id x ≡ true) where
  -- The one row of the key is not selected, so none is.
  pub find-refused :
      (xs : List ProjectRow) (p : ProjectRow)
      → SoleIds xs
      → find (in_tenant id tenant_id) xs ≡ some p
      → pw p ≡ false
      → find pw xs ≡ none
  find-refused [] p sole h k = refl
  find-refused (x ∷ xs) p (alone, sole) h k = elim (Bool-cases (in_tenant id tenant_id x)) [
    | inl e ↦
        let same : x ≡ p = ground (arith, e) in
        let named : x.id ≡ id = ground (arith, e) in
        rw (ap pw same, k) (not_again id tenant_id pw sub x named xs alone)
    | inr e ↦ elim (Bool-cases (pw x)) [
      | inl s ↦ cc (sub x s, e)
      | inr s ↦ rw s (find-refused xs p sole (rw e at h) k)
    ]
  ]

  module _ (f : ProjectRow → ProjectRow)
      (keeps : (x : ProjectRow) → ((f x).id ≡ x.id) × ((f x).tenant_id ≡ x.tenant_id)) where
    keeps_key : (i tn : ℕ) (x : ProjectRow) → in_tenant i tn (f x) ≡ in_tenant i tn x
    keeps_key i tn x = ground (arith, (keeps x).0, (keeps x).1)

    pub view-rewritten :
        (xs : List ProjectRow) (p : ProjectRow)
        → find (in_tenant id tenant_id) xs ≡ some p
        → pw p ≡ true
        → find (in_tenant id tenant_id) (update pw f xs) ≡ some (f p)
    view-rewritten xs p h k =
        find-update pw f (in_tenant id tenant_id) (keeps_key id tenant_id) xs ∙ rw (h, k) refl

    -- No other key sees it.
    pub view-apart :
        (i tn : ℕ)
        → (i == id && tn == tenant_id) ≡ false
        → (xs : List ProjectRow) → find (in_tenant i tn) (update pw f xs) ≡ find (in_tenant i tn) xs
    view-apart i tn other xs =
        find-update pw f (in_tenant i tn) (keeps_key i tn) xs
        ∙ elim (Option-cases (find (in_tenant i tn) xs)) [
          | inl e ↦ rw e refl
          | inr (y, e) ↦ elim (Bool-cases (pw y)) [
            | inl s ↦ absurd (ground (arith, sub y s, find-eq-some (in_tenant i tn) xs y e))
            | inr s ↦ rw (e, s) refl
          ]
        ]

    rewritten_id : (x : ProjectRow) → (if pw x then f x else x).id ≡ x.id
    rewritten_id x = ground (arith, (keeps x).0)

    apart_still :
        (p : ProjectRow) (xs : List ProjectRow)
        → All (λ x. (x.id == p.id) ≡ false) xs
        → All (λ x. (x.id == (if pw p then f p else p).id) ≡ false) (update pw f xs)
    apart_still p [] h = tt
    apart_still p (x ∷ xs) (h, hs) = (rw (rewritten_id x, rewritten_id p) h, apart_still p xs hs)

    pub SoleIds-update : (xs : List ProjectRow) → SoleIds xs → SoleIds (update pw f xs)
    SoleIds-update [] h = tt
    SoleIds-update (x ∷ xs) (h, hs) = (apart_still x xs h, SoleIds-update xs hs)
