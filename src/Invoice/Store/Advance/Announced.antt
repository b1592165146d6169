-- ===== src/Invoice/Store/Advance/Announced.antt =====
-- What a Transition that succeeded has recorded: its audit entry and the deliveries of its event
-- (internal/invoice/store.go).
use tenant_api_platform.Prelude.{
  ℕ, not, ok, Option, some, [], ◌∷◌, ◌++◌, ◌≡◌, sym, ◌∙◌, ap, arith, inl, inr, Result-cases, find,
  map, select, if◌then◌else◌,
}
use tenant_api_platform.Prelude.Int64.{ℤ}
use tenant_api_platform.Prelude.Runes.{Runes, runes}
use tenant_api_platform.Db.{with_identity_tx}
use tenant_api_platform.Db.Laws.{with_identity_tx-eq-ok}
use tenant_api_platform.Tenant.{Authorized, identity}
use tenant_api_platform.Audit.{ActorKind, Entry, write, actor_from_authorized}
use tenant_api_platform.Webhook.Events.{EventName}
use tenant_api_platform.Webhook.Outbox.Rows.{Outbox}
use tenant_api_platform.Webhook.Outbox.Queue.{enqueue, queued, subscribed}
use tenant_api_platform.Invoice.Lifecycle.{Transition, audit_action_for, event_for_transition}
use tenant_api_platform.Invoice.Tables.{Invoice, Loaded, AuditImage, Tables, has_key}
use tenant_api_platform.Invoice.Tables.Laws.{update_invoice-eq-some}
use tenant_api_platform.Invoice.Store.Statements.{Env, Call, audit_image, audit_invoice, emit}
use tenant_api_platform.Invoice.Store.Statements.Laws.{
  emit-Keeps, audit_invoice-Keeps, write_event-Keeps,
}
use tenant_api_platform.Invoice.Store.Advance.{transition_write, transition_tx, transition}
use tenant_api_platform.Invoice.Store.Advance.Laws.{
  announce-eq-ok, transition_write-eq-ok, same_version,
}
use tenant_api_platform.Invoice.Store.Advance.Success.{guards_passed, transition_tx-eq-ok}

-- The outbox with one delivery more for each endpoint of the tenant that subscribes to the event, or,
-- without an outbox, as it was.
abbrev pub fanned_out : Env → Call → Authorized → EventName → Loaded → Outbox Loaded → Outbox Loaded
fanned_out env call auth event l o = if not env.events then o else record o {
  rows =
      o.rows
      ++ map
          (queued
            (record {
              tenant_id = auth.scope.id;
              event = event;
              event_id = call.event_id;
              payload = l;
              size = env.payload_size event l;
            })
            call.delivery_id call.now)
          (select (subscribed auth.scope.id event) o.endpoints);
}

abbrev pub entry_for :
    Call → Runes → Invoice → AuditImage → AuditImage → Option ℕ × ActorKind → Entry AuditImage
entry_for call action i before after actor = record {
  tenant_id = i.tenant_id;
  actor_id = actor.0;
  actor_kind = actor.1;
  action = action;
  resource = runes "invoice";
  resource_id = some i.id;
  before = some before;
  after = some after;
  request_id = call.request_id;
}

emit-fanned_out :
    (env : Env) (call : Call) (auth : Authorized) (e : EventName) (l : Loaded) (t t' : Tables)
    → emit env call auth e l t ≡ ok (tt, t')
    → t'.outbox ≡ fanned_out env call auth e l t.outbox
unfolding emit enqueue
emit-fanned_out env call auth e l t t' h = ground arith

audit_invoice-entry :
    (call : Call) (auth : Authorized) (action : Runes) (i : Invoice) (before after : AuditImage)
    (t t' : Tables)
    → audit_invoice call auth action i (some before) (some after) t ≡ ok (tt, t')
    → (actor : Option ℕ × ActorKind) × (actor_from_authorized auth ≡ ok actor)
      × (t'.trail ≡ t.trail ++ entry_for call action i before after actor ∷ [])
unfolding audit_invoice write
audit_invoice-entry call auth action i before after t t' h =
    elim (Result-cases (actor_from_authorized auth)) [
      | inl (actor, e) ↦ (actor, e, ground arith)
      | inr (e, f) ↦ absurd (ground arith)
    ]

-- What was recorded: the row that was read, the entry of the trail with the invoice before and after,
-- and the deliveries, which carry the invoice as it was answered.
pub record Announced (env : Env) (call : Call) (auth : Authorized) (id : ℕ) (tr : Transition)
    (l : Loaded) (t t' : Tables) : Type 0 where
  pub before : Invoice
  pub read : find (has_key id auth.scope.id) t.invoices ≡ some before
  pub actor : Option ℕ × ActorKind
  pub acts : actor_from_authorized auth ≡ ok actor
  pub audited :
      t'.trail
      ≡ t.trail
        ++ entry_for call
            (audit_action_for tr)
            l.invoice
            (audit_image (record { invoice = before; items = [] }))
            (audit_image l)
            actor
          ∷ []
  pub sent : t'.outbox ≡ fanned_out env call auth (event_for_transition tr) l t.outbox

module _ (env : Env) (call : Call) (auth : Authorized) (id : ℕ) (tr : Transition) (expected : ℤ)
    (l : Loaded) (t : Tables) where
  write-Announced :
      (before : Invoice) (t' : Tables)
      → find (has_key id auth.scope.id) t.invoices ≡ some before
      → transition_write env call auth tr expected before t ≡ ok (l, t')
      → Announced env call auth id tr l t t'
  write-Announced before t' there h =
      let (i, t0, e, a) = transition_write-eq-ok env call auth tr expected before l t t' h in
      let u =
        update_invoice-eq-some (same_version env call auth tr expected before l t t') _ t t0 i e in
      let (same, (t1, t2, logs, sends, audits)) =
        announce-eq-ok env call auth tr before i l t0 t' a in
      let (_, trail1, outbox1, _) = write_event-Keeps auth i _ _ _ t0 t1 logs in
      let (_, _, trail2) = emit-Keeps env call auth _ _ t1 t2 sends in
      let (_, _, outbox3) = audit_invoice-Keeps call auth _ i _ _ t2 t' audits in
      let (actor, acts, trail3) = audit_invoice-entry call auth _ i _ _ t2 t' audits in
      let outbox2 = emit-fanned_out env call auth _ _ t1 t2 sends in
      record {
        before = before;
        read = there;
        actor = actor;
        acts = acts;
        audited = cc (trail1, trail2, trail3, same, u.tables);
        sent = cc (outbox1, outbox2, outbox3, same, u.tables);
      }

  -- A transition that succeeded has left its whole record: one entry was added to the audit trail, of
  -- the caller, with the invoice as it was read and as it is answered, and, where there is an outbox,
  -- one delivery of its event for each endpoint of the tenant that subscribes to it, with the invoice
  -- as it is answered; nothing else was added to either.
  pub transition-Announced :
      (transition env call auth id tr expected t).0 ≡ ok l
      → Announced env call auth id tr l t (transition env call auth id tr expected t).1
  transition-Announced h =
      let (valid, same) = guards_passed env call auth id tr expected l t h in
      let (before, there, legal, wrote) =
        transition_tx-eq-ok env call auth id tr expected l t
          (with_identity_tx (identity auth) (transition_tx env call auth id tr expected) t).1
          (with_identity_tx-eq-ok (identity auth) (transition_tx env call auth id tr expected) t
            (ap (λ x. x.0) (sym same) ∙ h)) in
      rw same (write-Announced before _ there wrote)
