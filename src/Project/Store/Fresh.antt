-- ===== src/Project/Store/Fresh.antt =====
-- What Create stores is what Get then reads (internal/project/store.go).
use tenant_api_platform.Prelude.{
  true, false, ok, err, internal, conflict, no_scope, Result-cases, Err, ◌⊎◌, none, some, List, [],
  ◌∷◌, ◌++◌, ◌≡◌, refl, sym, ap, ◌∙◌, arith, ◌==◌, find, find-append, any, Bool-cases, inl, inr,
}
use tenant_api_platform.Prelude.Runes.{runes}
use tenant_api_platform.Tenant.{Authorized, auth_valid}
use tenant_api_platform.Tenant.Laws.{with_identity_tx-auth}
use tenant_api_platform.Project.Validate.{ProjectInput, Slugs, validate_project}
use tenant_api_platform.Project.Tables.{
  ProjectRow, ProjectTables, in_tenant, project_ok, takes_slug, insert_project,
}
use tenant_api_platform.Project.Store.{
  ProjectCall, project_image, new_project, create_project_tx, create_project, get_project_tx,
  get_project,
}
use tenant_api_platform.Project.Store.Laws.{entry_of, audit_project-ok}

module _ (call : ProjectCall) (auth : Authorized) (valid : auth_valid auth ≡ true)
    (i : ProjectInput) (t : ProjectTables) where
  abbrev made : ProjectRow
  made = new_project call auth i

  abbrev pub after_create : ProjectTables
  after_create = record t {
    projects = t.projects ++ made ∷ [];
    trail =
        t.trail
        ++ entry_of call auth valid (runes "project.create") made none (project_image made) ∷ [];
  }

  own : made.tenant_id ≡ auth.scope.id
  unfolding new_project
  own = refl

  -- Create goes through only for an identifier that no row has.
  create_tx-cases :
      (create_project_tx call auth i t ≡ ok (made, after_create))
        × (any (λ x. x.id == made.id) t.projects ≡ false)
      ⊎ (e : Err) × (create_project_tx call auth i t ≡ err e)
  unfolding create_project_tx insert_project
  create_tx-cases = elim (Bool-cases (project_ok made)) [
    | inr e ↦ inr (internal, rw e refl)
    | inl e ↦ elim (Bool-cases (any (λ x. x.id == made.id) t.projects)) [
      | inl a ↦ inr (conflict, rw (e, a) refl)
      | inr a ↦ elim (Bool-cases (any (takes_slug made) t.projects)) [
        | inl b ↦ inr (conflict, rw (e, a, b) refl)
        | inr b ↦ inl (
          rw
              (
                e,
                a,
                b,
                audit_project-ok call auth valid (runes "project.create") made none
                    (project_image made) (record t { projects = t.projects ++ made ∷ [] }) own refl,
              )
              refl,
          a,
        )
      ]
    ]
  ]

  not_there :
      (xs : List ProjectRow)
      → any (λ x. x.id == made.id) xs ≡ false
      → find (in_tenant made.id auth.scope.id) xs ≡ none
  not_there [] h = refl
  not_there (x ∷ xs) h = ground (arith, h, not_there xs)

  found_made :
      any (λ x. x.id == made.id) t.projects ≡ false
      → find (in_tenant made.id auth.scope.id) after_create.projects ≡ some made
  unfolding new_project
  found_made h =
      let here : in_tenant made.id auth.scope.id made ≡ true = ground arith in
      find-append (in_tenant made.id auth.scope.id) t.projects (made ∷ []) (not_there t.projects h)
      ∙ rw here refl

  pub get_project-made :
      (call.project_id == 0) ≡ false
      → any (λ x. x.id == made.id) t.projects ≡ false
      → get_project auth made.id after_create ≡ (ok made, after_create)
  unfolding get_project get_project_tx new_project
  get_project-made named h =
      rw
        (
          valid,
          named,
          with_identity_tx-auth auth (get_project_tx made.id auth.scope.id) after_create valid,
          found_made h,
        )
        refl

ok_injective : {A : Type 0} {a b : A} → ok a ≡ ok b → a ≡ b
ok_injective h = cc

-- A project that Create answers is the one that Get then answers the caller for its identifier,
-- unless the identifier drawn is 0.
pub get_project-create_project :
    (env : Slugs) (call : ProjectCall) (auth : Authorized) (input : ProjectInput)
    (t t' : ProjectTables) (p : ProjectRow)
    → (call.project_id == 0) ≡ false
    → create_project env call auth input t ≡ (ok p, t')
    → get_project auth p.id t' ≡ (ok p, t')
unfolding create_project
get_project-create_project env call auth input t t' p named h =
    elim (Bool-cases (auth_valid auth)) [
      | inr e ↦ let no : err no_scope ≡ ok p = ap (λ r. r.0) (rw e at h) in cc
      | inl valid ↦ elim (Result-cases (validate_project env input)) [
        | inr (why, e) ↦ let no : err why ≡ ok p = ap (λ r. r.0) (rw (valid, e) at h) in cc
        | inl (i, e) ↦ elim (create_tx-cases call auth valid i t) [
          | inr (why, k) ↦
              let no : err why ≡ ok p =
                ap (λ r. r.0)
                  (rw
                    (
                      valid,
                      e,
                      with_identity_tx-auth auth (create_project_tx call auth i) t valid,
                      k,
                    )
                    at h) in
              cc
          | inl (k, fresh) ↦
              let both : (ok (new_project call auth i), after_create call auth valid i t)
                  ≡ (ok p, t') =
                rw (valid, e, with_identity_tx-auth auth (create_project_tx call auth i) t valid, k)
                  at h in
              let row : new_project call auth i ≡ p = ok_injective (ap (λ r. r.0) both) in
              rw (sym row, sym (ap (λ r. r.1) both))
                (get_project-made call auth valid i t named fresh)
        ]
      ]
    ]
