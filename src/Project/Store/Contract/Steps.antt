-- ===== src/Project/Store/Contract/Steps.antt =====
-- Each method of the project store does to the tables what its action does to the registers
-- (internal/project/store.go).
use mathlib.Core.Option
use tenant_api_platform.Prelude.Runes.{Runes}
use tenant_api_platform.Prelude.{
  ℕ, Bool, true, false, ◌&&◌, ok, Option, none, some, Option-cases, ◌≡◌, refl, sym, ap, ◌∙◌, arith,
  ◌==◌, find-eq-some, update, Bool-cases, inl, inr,
}
use tenant_api_platform.Prelude.Int64.{pos, eqb_ℤ}
use tenant_api_platform.Audit.{is_some}
use tenant_api_platform.Db.{finish}
use tenant_api_platform.Tenant.{Authorized, auth_valid}
use tenant_api_platform.Project.Tables.{ProjectRow, ProjectTables, in_tenant, project_ok}
use tenant_api_platform.Project.Tables.Laws.{
  SoleIds, view, view-rewritten, view-apart, SoleIds-update,
}
use tenant_api_platform.Project.Store.{ProjectCall, get_project_tx}
use tenant_api_platform.Project.Store.Update.{
  UpdateInput, or_kept, edited, at_version, settle_outcome, update_project_tx, why_not_updated,
}
use tenant_api_platform.Project.Store.Archive.{retired, to_retire, archive_project_tx}
use tenant_api_platform.Project.Store.Laws.{
  selects-key, update_tx-none, update_tx-refused, update_tx-broken, update_tx-done, retires-key,
  retired_keeps, archive_tx-none, archive_tx-again, archive_tx-broken, archive_tx-done,
}
use tenant_api_platform.Project.Store.Contract.{
  rewritten_by, archived_by, read_answer, edit_answer, edit_cell, retire_answer, retire_cell, put,
}

-- A result and new tables that stand for an answer and a new cell under one key.
pub record Matches {A : Type 0} (id tenant_id : ℕ) (t : ProjectTables) (r : A × ProjectTables)
    (answer : A) (cell : Option ProjectRow) : Type 0 where
  pub answers : r.0 ≡ answer
  pub cells : (i tn : ℕ) → view r.1 i tn ≡ put id tenant_id cell (view t) i tn
  pub sole : SoleIds r.1.projects

-- Putting back what is there changes nothing.
pub put-same :
    (id tenant_id : ℕ) (t : ProjectTables) (i tn : ℕ)
    → view t i tn ≡ put id tenant_id (view t id tenant_id) (view t) i tn
put-same id tenant_id t i tn = elim (Bool-cases (i == id && tn == tenant_id)) [
  | inl e ↦
      let one : i ≡ id = ground (arith, e) in
      let two : tn ≡ tenant_id = ground (arith, e) in
      rw e (ap (λ x. view t x tn) one ∙ ap (view t id) two)
  | inr e ↦ rw e refl
]

module _ {A : Type 0} (id tenant_id : ℕ) (t : ProjectTables) (sole : SoleIds t.projects) where
  untouched :
      (answer : A) (cell : Option ProjectRow)
      → view t id tenant_id ≡ cell
      → Matches id tenant_id t (answer, t) answer cell
  untouched answer cell e = record {
    answers = refl;
    cells = λ i tn. put-same id tenant_id t i tn ∙ ap (λ c. put id tenant_id c (view t) i tn) e;
    sole = sole;
  }

  rewritten :
      (pw : ProjectRow → Bool) (f : ProjectRow → ProjectRow) (p : ProjectRow) (answer : A)
      (t' : ProjectTables)
      → ((x : ProjectRow) → pw x ≡ true → in_tenant id tenant_id x ≡ true)
      → ((x : ProjectRow) → ((f x).id ≡ x.id) × ((f x).tenant_id ≡ x.tenant_id))
      → t'.projects ≡ update pw f t.projects
      → view t id tenant_id ≡ some p
      → pw p ≡ true
      → Matches id tenant_id t (answer, t') answer (some (f p))
  rewritten pw f p answer t' sub keeps changed e k = record {
    answers = refl;
    cells = λ i tn. elim (Bool-cases (i == id && tn == tenant_id)) [
      | inl s ↦
          let one : i ≡ id = ground (arith, s) in
          let two : tn ≡ tenant_id = ground (arith, s) in
          rw s
            (rw (one, two, changed) (view-rewritten id tenant_id pw sub f keeps t.projects p e k))
      | inr s ↦ rw (s, changed) (view-apart id tenant_id pw sub f keeps i tn s t.projects)
    ];
    sole = rw changed (SoleIds-update id tenant_id pw sub f keeps t.projects sole);
  }

module _ (call : ProjectCall) (auth : Authorized) (valid : auth_valid auth ≡ true) (id : ℕ)
    (t : ProjectTables) (sole : SoleIds t.projects) where
  abbrev cell : Option ProjectRow
  cell = view t id auth.scope.id

  -- Why an edit that selects no row is refused.
  refused_edit :
      (i : UpdateInput) (p : ProjectRow)
      → cell ≡ some p
      → at_version id auth.scope.id i.expected_version p ≡ false
      → why_not_updated (some p) ≡ edit_answer call.now i (some p)
  refused_edit i p e k = elim (Bool-cases (is_some p.archived_at)) [
    | inl dead ↦ rw dead refl
    | inr live ↦
        let other : eqb_ℤ (pos p.version) i.expected_version ≡ false =
          ground (arith, live, k, find-eq-some (in_tenant id auth.scope.id) t.projects p e) in
        rw (live, other) refl
  ]

  kept_cell :
      (i : UpdateInput) (p : ProjectRow) → edit_cell (why_not_updated (some p)) (some p) ≡ some p
  kept_cell i p = elim (Bool-cases (is_some p.archived_at)) [
    | inl dead ↦ rw dead refl
    | inr live ↦ rw live refl
  ]

  edited_keeps :
      (i : UpdateInput) (x : ProjectRow)
      → ((edited call.now i x).id ≡ x.id) × ((edited call.now i x).tenant_id ≡ x.tenant_id)
  unfolding edited
  edited_keeps i x = (refl, refl)

  coalesced : (given : Option Runes) (old : Runes) → or_kept given old ≡ Option.get_or given old
  coalesced none old = refl
  coalesced (some new) old = refl

  edited-rewritten_by :
      (i : UpdateInput) (p : ProjectRow) → edited call.now i p ≡ rewritten_by call.now i p
  unfolding edited
  edited-rewritten_by i p = rw (coalesced i.name p.name, coalesced i.description p.description) refl

  retired-archived_by : (p : ProjectRow) → retired call.now p ≡ archived_by call.now p
  unfolding retired
  retired-archived_by p = refl

  pub edit-Matches :
      (i : UpdateInput)
      → Matches id auth.scope.id t
          (settle_outcome (finish t (update_project_tx call auth id i t)))
          (edit_answer call.now i cell)
          (edit_cell (edit_answer call.now i cell) cell)
  edit-Matches i = elim (Option-cases cell) [
    | inl e ↦
        rw (update_tx-none call auth valid id t i e, e) (untouched id auth.scope.id t sole _ none e)
    | inr (p, e) ↦ elim (Bool-cases (at_version id auth.scope.id i.expected_version p)) [
      | inr k ↦
          rw
            (
              update_tx-refused call auth valid id t i p sole e k,
              e,
              sym (refused_edit i p e k),
              kept_cell i p,
            )
            (untouched id auth.scope.id t sole _ (some p) e)
      | inl k ↦
          let live : is_some p.archived_at ≡ false = ground (arith, k) in
          let same : eqb_ℤ (pos p.version) i.expected_version ≡ true = ground (arith, k) in
          elim (Bool-cases (project_ok (edited call.now i p))) [
            | inl r ↦
                rw
                  (
                    update_tx-done call auth valid id t i p e k r,
                    e,
                    live,
                    same,
                    sym (edited-rewritten_by i p),
                    r,
                  )
                  (rewritten id auth.scope.id t sole
                    (at_version id auth.scope.id i.expected_version) (edited call.now i) p
                    (ok (edited call.now i p)) _ (selects-key call auth valid id t i)
                    (edited_keeps i) refl e k)
            | inr r ↦
                rw
                  (
                    update_tx-broken call auth valid id t i p e k r,
                    e,
                    live,
                    same,
                    sym (edited-rewritten_by i p),
                    r,
                  )
                  (untouched id auth.scope.id t sole _ (some p) e)
          ]
    ]
  ]

  pub retire-Matches :
      Matches id auth.scope.id t
        (finish t (archive_project_tx call auth id t))
        (retire_answer call.now cell)
        (retire_cell call.now cell)
  retire-Matches = elim (Option-cases cell) [
    | inl e ↦
        rw (archive_tx-none call auth valid id t e, e) (untouched id auth.scope.id t sole _ none e)
    | inr (p, e) ↦ elim (Bool-cases (is_some p.archived_at)) [
      | inl dead ↦
          rw (archive_tx-again call auth valid id t p sole e dead, e, dead)
            (untouched id auth.scope.id t sole _ (some p) e)
      | inr live ↦
          let goes : to_retire id auth.scope.id p ≡ true =
            ground (arith, live, find-eq-some (in_tenant id auth.scope.id) t.projects p e) in
          elim (Bool-cases (project_ok (retired call.now p))) [
            | inl r ↦
                rw
                  (
                    archive_tx-done call auth valid id t p e live r,
                    e,
                    live,
                    sym (retired-archived_by p),
                    r,
                  )
                  (rewritten id auth.scope.id t sole (to_retire id auth.scope.id) (retired call.now)
                    p (ok tt) _ (retires-key call auth valid id t)
                    (retired_keeps call auth valid id t) refl e goes)
            | inr r ↦
                rw
                  (
                    archive_tx-broken call auth valid id t p e live r,
                    e,
                    live,
                    sym (retired-archived_by p),
                    r,
                  )
                  (untouched id auth.scope.id t sole _ (some p) e)
          ]
    ]
  ]

  pub read-Matches :
      Matches id auth.scope.id t
        (finish t (get_project_tx id auth.scope.id t))
        (read_answer cell)
        cell
  unfolding get_project_tx
  read-Matches = elim (Option-cases cell) [
    | inl e ↦ rw e (untouched id auth.scope.id t sole _ none e)
    | inr (p, e) ↦ rw e (untouched id auth.scope.id t sole _ (some p) e)
  ]
