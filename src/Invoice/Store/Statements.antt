-- ===== src/Invoice/Store/Statements.antt =====
-- internal/invoice/store.go: what the operations share inside their transactions.
pub mod Laws
use tenant_api_platform.Prelude.{
  ℕ, ◌+◌, Bool, false, not, ◌&&◌, ◌||◌, Result, ok, err, internal, Option, none, some, List, [],
  ◌∷◌, ◌++◌, ltb, leb, ◌==◌, if◌then◌else◌, find, select, update, length,
}
use tenant_api_platform.Prelude.Int64.{max_int64}
use tenant_api_platform.Prelude.Runes.{Runes, runes, runes_eq}
use tenant_api_platform.Audit.{Entry, is_some, write, actor_from_authorized}
use tenant_api_platform.Db.{Tx, pure, lift, check, gets, modify, ◌>>=◌, ◌>>◌}
use tenant_api_platform.Tenant.{Authorized}
use tenant_api_platform.Webhook.Events.{EventName}
use tenant_api_platform.Webhook.Outbox.Rows.{Outbox}
use tenant_api_platform.Webhook.Outbox.Queue.{enqueue}
use tenant_api_platform.Invoice.Lifecycle.{Status, status_draft, status_eq}
use tenant_api_platform.Invoice.Tables.{
  Item, Invoice, Loaded, Counter, AuditImage, Tables, on_invoice,
}

-- What the store is built with and calls outside the repository: the length of the JSON text of an
-- event, and unicode.ToUpper beyond ASCII.
pub record Env : Type 0 where
  pub events : Bool
  pub payload_size : EventName → Loaded → ℕ
  pub upper : ℕ → ℕ

-- What one call draws: the database's time, the identifiers it makes, and its request id.
pub record Call : Type 0 where
  pub now : ℕ
  pub invoice_id : ℕ
  pub item_id : ℕ → ℕ
  pub event_id : ℕ
  pub delivery_id : ℕ → ℕ
  pub request_id : Runes

unfoldable pub audit_image : Loaded → AuditImage
audit_image l = record {
  id = l.invoice.id;
  number = l.invoice.number;
  status = l.invoice.status;
  currency = l.invoice.currency;
  subtotal_minor = l.invoice.subtotal_minor;
  tax_minor = l.invoice.tax_minor;
  total_minor = l.invoice.total_minor;
  version = l.invoice.version;
  item_count = length l.items;
}

abbrev store_outbox : Tables → Result (ℕ × Outbox Loaded) → Result (Unit {0} × Tables)
store_outbox t (ok (n, o)) = ok (tt, record t { outbox = o })
store_outbox t (err e) = err e

-- The method emit; the payload is the invoice with its lines.
unfoldable pub emit : Env → Call → Authorized → EventName → Loaded → Tx Tables (Unit {0})
emit env call auth event l t =
    if not env.events
    then ok (tt, t)
    else store_outbox t (
        enqueue
          (record {
            tenant_id = auth.scope.id;
            event = event;
            event_id = call.event_id;
            payload = l;
            size = env.payload_size event l;
          })
          call.delivery_id call.now t.outbox)

abbrev store_trail :
    Tables → Result (Unit {0} × List (Entry AuditImage)) → Result (Unit {0} × Tables)
store_trail t (ok (u, trail)) = ok (tt, record t { trail = trail })
store_trail t (err e) = err e

unfoldable pub audit_invoice :
    Call
    → Authorized
    → Runes
    → Invoice
    → Option AuditImage
    → Option AuditImage
    → Tx Tables (Unit {0})
audit_invoice call auth action i before after = do
  actor ← lift (actor_from_authorized auth)
  λ t. store_trail t (
      write
        (record {
          tenant_id = i.tenant_id;
          actor_id = actor.0;
          actor_kind = actor.1;
          action = action;
          resource = runes "invoice";
          resource_id = some i.id;
          before = before;
          after = after;
          request_id = call.request_id;
        })
        t.trail)

abbrev differ : Option Status → Option Status → Bool
differ (some a) (some b) = not (status_eq a b)
differ _ _ = false

abbrev starts_draft : Option Status → Option Status → Bool
starts_draft none (some to) = status_eq to status_draft
starts_draft _ _ = false

-- The constraints `invoice_events_status_pair` and `…_transition_changes_state`.
unfoldable pub event_ok : Runes → Option Status → Option Status → Bool
event_ok kind from to =
    runes_eq kind (runes "created") && starts_draft from to
    || (runes_eq kind (runes "issued")
        || runes_eq kind (runes "paid")
        || runes_eq kind (runes "voided"))
      && differ from to
    || (runes_eq kind (runes "item_added") || runes_eq kind (runes "item_removed"))
      && not (is_some from)
      && not (is_some to)

unfoldable pub write_event :
    Authorized → Invoice → Runes → Option Status → Option Status → Tx Tables (Unit {0})
write_event auth i kind from to = do
  actor ← lift (actor_from_authorized auth)
  check (event_ok kind from to) internal
  modify (λ t. record t {
    events =
        t.events
        ++ record {
          invoice_id = i.id;
          tenant_id = i.tenant_id;
          kind = kind;
          from_status = from;
          to_status = to;
          actor_id = actor.0;
          actor_kind = actor.1;
        }
          ∷ [];
  })

abbrev pub counts_for : ℕ → Counter → Bool
counts_for tenant_id c = c.tenant_id == tenant_id

abbrev take_number : ℕ → Option Counter → Tx Tables ℕ
take_number tenant_id none = do
  modify (λ t. record t {
    counters = t.counters ++ record { tenant_id = tenant_id; next_number = 2 } ∷ [];
  })
  pure 1
take_number tenant_id (some c) = do
  check (ltb c.next_number max_int64) internal
  modify (λ t. record t {
    counters =
        update (counts_for tenant_id) (λ x. record x { next_number = x.next_number + 1 })
          t.counters;
  })
  pure c.next_number

-- INSERT … ON CONFLICT DO UPDATE … RETURNING next_number - 1.
unfoldable pub allocate_number : ℕ → Tx Tables ℕ
allocate_number tenant_id = do
  counter ← gets (λ t. find (counts_for tenant_id) t.counters)
  take_number tenant_id counter

-- ORDER BY position.
unfoldable pub insert_by_position : Item → List Item → List Item
insert_by_position i [] = i ∷ []
insert_by_position i (x ∷ xs) =
    if leb i.position x.position then i ∷ x ∷ xs else x ∷ insert_by_position i xs

unfoldable pub by_position : List Item → List Item
by_position [] = []
by_position (i ∷ items) = insert_by_position i (by_position items)

unfoldable pub load_items : ℕ → ℕ → Tx Tables (List Item)
load_items invoice_id tenant_id =
    gets (λ t. by_position (select (on_invoice invoice_id tenant_id) t.items))
