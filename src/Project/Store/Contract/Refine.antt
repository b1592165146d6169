-- ===== src/Project/Store/Contract/Refine.antt =====
-- The project store refines the registers (internal/project/store.go).
use mathlib.Core.Path.{fun_ext}
use tenant_api_platform.Prelude.{
  true, false, err, no_scope, not_found, Result-cases, Option, List, [], ◌∷◌, ◌≡◌, refl, sym, ap,
  ◌∙◌, ◌==◌, Bool-cases, inl, inr,
}
use tenant_api_platform.Tenant.{auth_valid}
use tenant_api_platform.Project.Tables.{ProjectRow, ProjectTables}
use tenant_api_platform.Project.Tables.Laws.{SoleIds, view}
use tenant_api_platform.Project.Store.{get_project, get_project_tx}
use tenant_api_platform.Project.Store.Update.{
  UpdateInput, validate_update, update_project, update_project_tx,
}
use tenant_api_platform.Project.Store.Archive.{archive_project, archive_project_tx}
use tenant_api_platform.Tenant.Laws.{with_identity_tx-auth}
use tenant_api_platform.Project.Store.Contract.{
  Registers, Action, read, edit, retire, Ask, StoreAnswer, of_project, of_archive, put, read_answer,
  retire_answer, retire_cell, refuse, unnamed, respond_to, respond_edit, respond, respond_all,
  serve_action, serve_all, as_project, as_archive,
}
use tenant_api_platform.Project.Store.Contract.Steps.{
  Matches, put-same, edit-Matches, retire-Matches, read-Matches,
}

-- One request: the same answer, the registers that stand for the new tables, and the key kept.
record Refines (served : StoreAnswer × ProjectTables) (answered : StoreAnswer × Registers)
    : Type 0 where
  answers : served.0 ≡ answered.0
  registers : view served.1 ≡ answered.1
  sole : SoleIds served.1.projects

module _ (a : Ask) (t : ProjectTables) (sole : SoleIds t.projects) where
  idle : (answer : StoreAnswer) → Refines (answer, t) (answer, view t)
  idle answer = record { answers = refl; registers = refl; sole = sole }

  matched :
      {A : Type 0} (wrap : A → StoreAnswer) (r : A × ProjectTables) (answer : A)
      (cell : Option ProjectRow)
      → Matches a.id a.auth.scope.id t r answer cell
      → Refines (wrap r.0, r.1) (wrap answer, put a.id a.auth.scope.id cell (view t))
  matched wrap r answer cell m = record {
    answers = ap wrap m.answers;
    registers = fun_ext (λ i. fun_ext (λ tn. m.cells i tn));
    sole = m.sole;
  }

  refused :
      (action : Action)
      → auth_valid a.auth ≡ false
      → Refines (serve_action a action t) (refuse action, view t)
  unfolding get_project update_project archive_project
  refused read e = rw e (idle (of_project (err no_scope)))
  refused (edit i) e = rw e (idle (of_project (err no_scope)))
  refused retire e = rw e (idle (of_archive (err no_scope)))

  module _ (valid : auth_valid a.auth ≡ true) where
    nameless :
        (action : Action)
        → (a.id == 0) ≡ true
        → Refines (serve_action a action t) (unnamed action, view t)
    unfolding get_project update_project archive_project
    nameless read e = rw (valid, e) (idle (of_project (err not_found)))
    nameless (edit i) e = rw (valid, e) (idle (of_project (err not_found)))
    nameless retire e = rw (valid, e) (idle (of_archive (err not_found)))

    module _ (named : (a.id == 0) ≡ false) where
      reads :
          Refines
            (as_project (get_project a.auth a.id t))
            (of_project (read_answer (view t a.id a.auth.scope.id)), view t)
      unfolding get_project
      reads =
          let m = read-Matches a.call a.auth valid a.id t sole in
          rw
            (
              valid,
              named,
              with_identity_tx-auth a.auth (get_project_tx a.id a.auth.scope.id) t valid,
            )
            (record {
              answers = ap of_project m.answers;
              registers =
                  fun_ext (λ i.
                    fun_ext (λ tn. m.cells i tn ∙ sym (put-same a.id a.auth.scope.id t i tn)));
              sole = m.sole;
            })

      edits :
          (i : UpdateInput)
          → Refines
              (as_project (update_project a.call a.auth a.id i t))
              (respond_edit a (validate_update i) (view t))
      unfolding update_project
      edits i = elim (Result-cases (validate_update i)) [
        | inl (good, e) ↦
            rw
              (
                valid,
                named,
                e,
                with_identity_tx-auth a.auth (update_project_tx a.call a.auth a.id good) t valid,
              )
              (matched of_project _ _ _ (edit-Matches a.call a.auth valid a.id t sole good))
        | inr (why, e) ↦ rw (valid, named, e) (idle (of_project (err why)))
      ]

      retires : Refines (as_archive (archive_project a.call a.auth a.id t)) (
        of_archive (retire_answer a.call.now (view t a.id a.auth.scope.id)),
        put a.id a.auth.scope.id (retire_cell a.call.now (view t a.id a.auth.scope.id)) (view t),
      )
      unfolding archive_project
      retires =
          rw
            (
              valid,
              named,
              with_identity_tx-auth a.auth (archive_project_tx a.call a.auth a.id) t valid,
            )
            (matched of_archive _ _ _ (retire-Matches a.call a.auth valid a.id t sole))

      done : (action : Action) → Refines (serve_action a action t) (respond_to a action (view t))
      done read = reads
      done (edit i) = edits i
      done retire = retires

  serve_action-Refines : Refines (serve_action a a.action t) (respond a (view t))
  serve_action-Refines = elim (Bool-cases (auth_valid a.auth)) [
    | inr e ↦ rw e (refused a.action e)
    | inl e ↦ elim (Bool-cases (a.id == 0)) [
      | inl z ↦ rw (e, z) (nameless e a.action z)
      | inr z ↦ rw (e, z) (done e z a.action)
    ]
  ]

-- A sequence of Get, Update and Archive calls, of any callers and on any tables with a primary key,
-- is answered as the registers answer it: an edit needs the expected version and a project that is
-- not archived, archiving twice is archiving once, and no request of a tenant touches another's.
pub serve_all-respond_all :
    (asks : List Ask) (t : ProjectTables)
    → SoleIds t.projects
    → serve_all asks t ≡ respond_all asks (view t)
unfolding serve_all respond_all
serve_all-respond_all [] t sole = refl
serve_all-respond_all (a ∷ rest) t sole =
    let one = serve_action-Refines a t sole in
    rw
      (
        one.answers,
        serve_all-respond_all rest (serve_action a a.action t).1 one.sole,
        one.registers,
      )
      refl
