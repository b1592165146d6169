-- ===== src/Invoice/Store/Advance/Laws.antt =====
-- What Transition of internal/invoice/store.go writes, and that it writes once.
use mathlib.Core.Option
use tenant_api_platform.Prelude.{
  ℕ, Bool, true, false, Result, ok, err, version_conflict, Option, none, some, [], ◌∷◌, ◌++◌, ◌≡◌,
  refl, ◌∙◌, arith, inl, inr, Result-cases, Option-cases, find, update, find-update,
  find-update-none, find-none_of, ap,
}
use tenant_api_platform.Prelude.Int64.{ℤ}
use tenant_api_platform.Tenant.{Authorized}
use tenant_api_platform.Audit.{ActorKind, actor_from_authorized}
use tenant_api_platform.Invoice.Lifecycle.{
  Transition, transition_to, audit_action_for, event_for_transition, transition_text,
}
use tenant_api_platform.Invoice.Tables.{
  Invoice, Loaded, LogEvent, AuditImage, Tables, update_invoice, has_key,
}
use tenant_api_platform.Invoice.Tables.Laws.{Updated, update_invoice-eq-some}
use tenant_api_platform.Invoice.Store.Statements.{
  Env, Call, audit_image, emit, audit_invoice, write_event, load_items,
}
use tenant_api_platform.Invoice.Store.Statements.Laws.{
  Keeps, Keeps-trans, logged, emit-Keeps, audit_invoice-Keeps, write_event-Keeps,
}
use tenant_api_platform.Invoice.Store.Advance.{unchanged, advanced, announce, transition_write}

module _ (env : Env) (call : Call) (auth : Authorized) (tr : Transition)
    (before updated : Invoice) where
  abbrev entry : Option ℕ × ActorKind → LogEvent
  entry actor =
      logged updated (transition_text tr) (some before.status) (some (transition_to tr)) actor

  abbrev pub log : Tables → Result (Unit {0} × Tables)
  log = write_event auth updated (transition_text tr) (some before.status) (some (transition_to tr))

  abbrev pub send : Loaded → Tables → Result (Unit {0} × Tables)
  send l =
      emit env call auth (event_for_transition tr) (record { invoice = updated; items = l.items })

  abbrev pub image_before : Option AuditImage
  image_before = some (audit_image (record { invoice = before; items = [] }))

  abbrev pub image_after : Loaded → Option AuditImage
  image_after l = some (audit_image (record { invoice = updated; items = l.items }))

  abbrev pub trail : Loaded → Tables → Result (Unit {0} × Tables)
  trail l = audit_invoice call auth (audit_action_for tr) updated image_before (image_after l)

  -- The three steps that write, one after the other.
  pub announce-eq-ok :
      (l : Loaded) (t t' : Tables)
      → announce env call auth tr before updated t ≡ ok (l, t')
      → (l.invoice ≡ updated)
        × ((t1 t2 : Tables) × (log t ≡ ok (tt, t1))
            × (send l t1 ≡ ok (tt, t2))
            × (trail l t2 ≡ ok (tt, t')))
  unfolding announce load_items
  announce-eq-ok l t t' h = elim (Result-cases (log t)) [
    | inl ((u, t1), e1) ↦ elim (Result-cases (send l t1)) [
      | inl ((v, t2), e2) ↦ elim (Result-cases (trail l t2)) [
        | inl ((w, t3), e3) ↦ (ground arith, (t1, t2, e1, e2, ground arith))
        | inr (e, f) ↦ absurd (ground arith)
      ]
      | inr (e, f) ↦ absurd (ground arith)
    ]
    | inr (e, f) ↦ absurd (ground arith)
  ]

  announce-Keeps :
      (l : Loaded) (t t' : Tables)
      → announce env call auth tr before updated t ≡ ok (l, t')
      → Keeps t t'
        × (l.invoice ≡ updated)
        × ((actor : Option ℕ × ActorKind) × (actor_from_authorized auth ≡ ok actor)
            × (t'.events ≡ t.events ++ entry actor ∷ []))
  announce-Keeps l t t' h =
      let (same, (t1, t2, e1, e2, e3)) = announce-eq-ok l t t' h in
      let (k1, trail1, outbox1, (actor, acts, log1)) =
        write_event-Keeps auth updated _ _ _ t t1 e1 in
      let (k2, events2, trail2) = emit-Keeps env call auth _ _ t1 t2 e2 in
      let (k3, events3, outbox3) = audit_invoice-Keeps call auth _ updated _ _ t2 t' e3 in
      (Keeps-trans (Keeps-trans k1 k2) k3, same, (actor, acts, events3 ∙ events2 ∙ log1))

-- A transition that was written: the row found still had the expected version and the status read.
pub record Written (env : Env) (call : Call) (auth : Authorized) (tr : Transition) (expected : ℤ)
    (before : Invoice) (l : Loaded) (t t' : Tables) : Type 0 where
  pub row :
      Updated
        (unchanged before.id before.tenant_id expected before.status)
        (advanced call (transition_to tr))
        l.invoice
        t
        (record t { invoices = t'.invoices })
  pub items : t'.items ≡ t.items
  pub counters : t'.counters ≡ t.counters
  pub actor : Option ℕ × ActorKind
  pub acts : actor_from_authorized auth ≡ ok actor
  pub logs :
      t'.events
      ≡ t.events
        ++ logged l.invoice
            (transition_text tr)
            (some before.status)
            (some (transition_to tr))
            actor
          ∷ []

module _ (env : Env) (call : Call) (auth : Authorized) (tr : Transition) (expected : ℤ)
    (before : Invoice) (l : Loaded) (t t' : Tables) where
  abbrev pub same_version : Invoice → Bool
  same_version = unchanged before.id before.tenant_id expected before.status

  abbrev pub advance : Tables → Result (Option Invoice × Tables)
  advance = update_invoice same_version (advanced call (transition_to tr))

  -- The row was found, and was announced.
  pub transition_write-eq-ok :
      transition_write env call auth tr expected before t ≡ ok (l, t')
      → (i : Invoice) × (t1 : Tables) × (advance t ≡ ok (some i, t1))
        × (announce env call auth tr before i t1 ≡ ok (l, t'))
  unfolding transition_write
  transition_write-eq-ok h = elim (Result-cases (advance t)) [
    | inl ((none, t1), e) ↦ absurd (ground arith)
    | inl ((some i, t1), e) ↦ (i, t1, e, ground arith)
    | inr (e, f) ↦ absurd (ground arith)
  ]

  pub transition_write-Written :
      transition_write env call auth tr expected before t ≡ ok (l, t')
      → Written env call auth tr expected before l t t'
  transition_write-Written h =
      let (i, t1, e, a) = transition_write-eq-ok h in
      let row = update_invoice-eq-some same_version (advanced call (transition_to tr)) t t1 i e in
      let (k, same, (actor, acts, logs)) = announce-Keeps env call auth tr before i l t1 t' a in
      record {
        row = record {
          found = row.found;
          was = row.was;
          becomes = same ∙ row.becomes;
          valid = row.valid;
          permitted = row.permitted;
          tables = cc (k.invoices, row.tables);
        };
        items = cc (k.items, row.tables);
        counters = cc (k.counters, row.tables);
        actor = actor;
        acts = acts;
        logs = cc (logs, row.tables, same);
      }

  stale :
      (x : Invoice)
      → same_version x ≡ true
      → same_version (advanced call (transition_to tr) x) ≡ false
  unfolding advanced
  stale x h = ground arith

  keyed : (x : Invoice) → same_version x ≡ true → has_key before.id before.tenant_id x ≡ true
  keyed x h = ground arith

  key_kept :
      (x : Invoice)
      → has_key before.id before.tenant_id (advanced call (transition_to tr) x)
        ≡ has_key before.id before.tenant_id x
  unfolding advanced
  key_kept x = refl

  invoices_of :
      Written env call auth tr expected before l t t'
      → t'.invoices ≡ update same_version (advanced call (transition_to tr)) t.invoices
  invoices_of w = ap (λ x. x.invoices) w.row.tables

  key_found :
      Written env call auth tr expected before l t t'
      → (i : Invoice) × (find (has_key before.id before.tenant_id) t.invoices ≡ some i)
  key_found w = elim (Option-cases (find (has_key before.id before.tenant_id) t.invoices)) [
    | inl missing ↦ absurd (cc (find-none_of same_version _ keyed t.invoices missing, w.row.was))
    | inr found ↦ found
  ]

  -- Afterwards the row is there, and not with the version and the status that were expected.
  moved_on :
      Written env call auth tr expected before l t t'
      → (find same_version t'.invoices ≡ none)
        × ((i : Invoice) × (find (has_key before.id before.tenant_id) t'.invoices ≡ some i))
  moved_on w =
      let (i, there) = key_found w in
      (
        rw (invoices_of w)
            (find-update-none same_version _ same_version stale (λ x e. e) t.invoices),
        (
          _,
          ap (find (has_key before.id before.tenant_id)) (invoices_of w)
              ∙ find-update same_version _ (has_key before.id before.tenant_id) key_kept t.invoices
              ∙ ap (Option.map _) there,
        ),
      )

-- No row at the version expected, though there is one: the answer is a version conflict.
transition_write-none :
    (env : Env) (call : Call) (auth : Authorized) (tr : Transition) (expected : ℤ)
    (before i : Invoice) (t : Tables)
    → find (unchanged before.id before.tenant_id expected before.status) t.invoices ≡ none
    → find (has_key before.id before.tenant_id) t.invoices ≡ some i
    → transition_write env call auth tr expected before t ≡ err version_conflict
unfolding transition_write update_invoice
transition_write-none env call auth tr expected before i t missing there = ground arith

-- Of two transitions that read the same row and expect the same version, at most one is written:
-- once one has been, the other is answered with a version conflict, whichever transitions they are
-- and whoever asks.
pub transition_write-once :
    (env : Env) (call call' : Call) (auth auth' : Authorized) (tr tr' : Transition) (expected : ℤ)
    (before : Invoice) (l : Loaded) (t t' : Tables)
    → transition_write env call auth tr expected before t ≡ ok (l, t')
    → transition_write env call' auth' tr' expected before t' ≡ err version_conflict
transition_write-once env call call' auth auth' tr tr' expected before l t t' h =
    let (missing, (i, there)) =
      moved_on env call auth tr expected before l t t'
        (transition_write-Written env call auth tr expected before l t t' h) in
    transition_write-none env call' auth' tr' expected before i t' missing there
