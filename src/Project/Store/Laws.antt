-- ===== src/Project/Store/Laws.antt =====
-- What Update and Archive do, case by case (internal/project/store.go).
use tenant_api_platform.Prelude.{
  ℕ, Bool, true, false, not, ◌&&◌, ok, err, internal, not_found, Option, none, some, [], ◌∷◌, ◌++◌,
  ◌≡◌, refl, arith, ◌==◌, find, find-eq-some, find-narrow, find-none_of, update, any,
}
use tenant_api_platform.Prelude.Runes.{Runes, runes}
use tenant_api_platform.Audit.{Entry, is_some, write}
use tenant_api_platform.Audit.Laws.{actor_of, actor_from_authorized-matches}
use tenant_api_platform.Tenant.{Authorized, auth_valid}
use tenant_api_platform.Project.Tables.{
  ProjectRow, ProjectImage, ProjectTables, in_tenant, project_ok, rewrite_project,
}
use tenant_api_platform.Project.Tables.Laws.{SoleIds, find-refused, view-rewritten}
use tenant_api_platform.Project.Store.{ProjectCall, audit_project, project_image, image_or_zero}
use tenant_api_platform.Project.Store.Update.{
  UpdateInput, edited, at_version, update_project_tx, why_not_updated,
}
use tenant_api_platform.Project.Store.Archive.{retired, to_retire, archive_project_tx}

scope_named : (auth : Authorized) → auth_valid auth ≡ true → (auth.scope.id == 0) ≡ false
unfolding auth_valid
scope_named auth h = ground arith

module _ (call : ProjectCall) (auth : Authorized) (valid : auth_valid auth ≡ true) where
  abbrev pub entry_of : Runes → ProjectRow → Option ProjectImage → ProjectImage → Entry ProjectImage
  entry_of action p before after = record {
    tenant_id = p.tenant_id;
    actor_id = (actor_of auth.kind auth).0;
    actor_kind = (actor_of auth.kind auth).1;
    action = action;
    resource = runes "project";
    resource_id = some p.id;
    before = before;
    after = some after;
    request_id = call.request_id;
  }

  imaged : (before : Option ProjectImage) → (not (is_some before) && false) ≡ false
  imaged none = refl
  imaged (some b) = refl

  -- The entry of a valid caller's change is always written.
  pub audit_project-ok :
      (action : Runes) (p : ProjectRow) (before : Option ProjectImage) (after : ProjectImage)
      (t : ProjectTables)
      → p.tenant_id ≡ auth.scope.id
      → any (λ r. r == b'.') action ≡ true
      → audit_project call auth action p before (some after) t
        ≡ ok (tt, record t { trail = t.trail ++ entry_of action p before after ∷ [] })
  unfolding audit_project write
  audit_project-ok action p before after t own dotted =
      let (actor, matches) = actor_from_authorized-matches auth valid in
      let named : (p.tenant_id == 0) ≡ false = rw own (scope_named auth valid) in
      rw (actor, named, matches, dotted, imaged before) refl

  module _ (id : ℕ) (t : ProjectTables) where
    abbrev key : ProjectRow → Bool
    key = in_tenant id auth.scope.id

    module _ (i : UpdateInput) where
      abbrev pub selects : ProjectRow → Bool
      selects = at_version id auth.scope.id i.expected_version

      pub selects-key : (x : ProjectRow) → selects x ≡ true → key x ≡ true
      selects-key x h = ground arith

      pub update_tx-none :
          find key t.projects ≡ none → update_project_tx call auth id i t ≡ ok (err not_found, t)
      unfolding update_project_tx rewrite_project
      update_tx-none e = rw (e, find-none_of selects key selects-key t.projects e, e) refl

      pub update_tx-refused :
          (p : ProjectRow)
          → SoleIds t.projects
          → find key t.projects ≡ some p
          → selects p ≡ false
          → update_project_tx call auth id i t ≡ ok (why_not_updated (some p), t)
      unfolding update_project_tx rewrite_project
      update_tx-refused p sole e k =
          rw (e, find-refused id auth.scope.id selects selects-key t.projects p sole e k, e) refl

      module _ (p : ProjectRow) (e : find key t.projects ≡ some p) (k : selects p ≡ true) where
        selected : find selects t.projects ≡ some p
        selected = find-narrow selects key selects-key t.projects p e k

        pub update_tx-broken :
            project_ok (edited call.now i p) ≡ false
            → update_project_tx call auth id i t ≡ err internal
        unfolding update_project_tx rewrite_project
        update_tx-broken r = rw (e, selected, r) refl

        abbrev pub after_update : ProjectTables
        after_update = record t {
          projects = update selects (edited call.now i) t.projects;
          trail =
              t.trail
              ++ entry_of (runes "project.update") (edited call.now i p)
                  (some (image_or_zero (some p))) (project_image (edited call.now i p))
                ∷ [];
        }

        own : (edited call.now i p).tenant_id ≡ auth.scope.id
        unfolding edited
        own = ground (arith, k)

        pub update_tx-done :
            project_ok (edited call.now i p) ≡ true
            → update_project_tx call auth id i t ≡ ok (ok (edited call.now i p), after_update)
        unfolding update_project_tx rewrite_project
        update_tx-done r =
            rw
              (
                e,
                selected,
                r,
                audit_project-ok (runes "project.update") (edited call.now i p)
                    (some (image_or_zero (some p))) (project_image (edited call.now i p))
                    (record t { projects = update selects (edited call.now i) t.projects }) own
                    refl,
              )
              refl

    abbrev pub retires : ProjectRow → Bool
    retires = to_retire id auth.scope.id

    pub retires-key : (x : ProjectRow) → retires x ≡ true → key x ≡ true
    retires-key x h = ground arith

    pub retired_keeps :
        (x : ProjectRow)
        → ((retired call.now x).id ≡ x.id) × ((retired call.now x).tenant_id ≡ x.tenant_id)
    unfolding retired
    retired_keeps x = (refl, refl)

    pub archive_tx-none :
        find key t.projects ≡ none → archive_project_tx call auth id t ≡ err not_found
    unfolding archive_project_tx rewrite_project
    archive_tx-none e = rw (e, find-none_of retires key retires-key t.projects e, e) refl

    pub archive_tx-again :
        (p : ProjectRow)
        → SoleIds t.projects
        → find key t.projects ≡ some p
        → is_some p.archived_at ≡ true
        → archive_project_tx call auth id t ≡ ok (tt, t)
    unfolding archive_project_tx rewrite_project
    archive_tx-again p sole e k =
        let dead : retires p ≡ false = ground (arith, k) in
        rw (e, find-refused id auth.scope.id retires retires-key t.projects p sole e dead, e, k)
          refl

    module _ (p : ProjectRow) (e : find key t.projects ≡ some p)
        (k : is_some p.archived_at ≡ false) where
      to_go : retires p ≡ true
      to_go = ground (arith, k, find-eq-some key t.projects p e)

      chosen : find retires t.projects ≡ some p
      chosen = find-narrow retires key retires-key t.projects p e to_go

      pub archive_tx-broken :
          project_ok (retired call.now p) ≡ false → archive_project_tx call auth id t ≡ err internal
      unfolding archive_project_tx rewrite_project
      archive_tx-broken r = rw (e, chosen, r) refl

      abbrev pub after_archive : ProjectTables
      after_archive = record t {
        projects = update retires (retired call.now) t.projects;
        trail =
            t.trail
            ++ entry_of (runes "project.archive") (retired call.now p)
                (some (image_or_zero (some p))) (project_image (retired call.now p))
              ∷ [];
      }

      own' : (retired call.now p).tenant_id ≡ auth.scope.id
      unfolding retired
      own' = ground (arith, find-eq-some key t.projects p e)

      pub archive_tx-done :
          project_ok (retired call.now p) ≡ true
          → archive_project_tx call auth id t ≡ ok (tt, after_archive)
      unfolding archive_project_tx rewrite_project
      archive_tx-done r =
          rw
            (
              e,
              chosen,
              r,
              view-rewritten id auth.scope.id retires retires-key (retired call.now) retired_keeps
                  t.projects p e to_go,
              audit_project-ok (runes "project.archive") (retired call.now p)
                  (some (image_or_zero (some p))) (project_image (retired call.now p))
                  (record t { projects = update retires (retired call.now) t.projects }) own' refl,
            )
            refl
