-- ===== src/Invoice/Tables.antt =====
-- The tables of internal/platform/migrations/0008_invoices.sql and 0009: rows, CHECK constraints,
-- keys and the two triggers, as the statements of internal/invoice/store.go meet them.
--
-- A number `n` stands for the text INV- and `n` in at least six digits. Row ids that nothing reads
-- (of events and audit entries) are left out.
pub mod Laws
use tenant_api_platform.Prelude.{
  ℕ, ◌+◌, ◌^◌, Bool, true, false, not, ◌&&◌, ◌||◌, Result, ok, err, internal, Option, none, some,
  List, [], ◌∷◌, ◌++◌, ltb, leb, ◌==◌, if◌then◌else◌, find, select, update, any, length,
}
use tenant_api_platform.Prelude.Int64.{ℤ, pos, ltb_ℤ, leb_ℤ, eqb_ℤ, ◌+ℤ◌, ◌*ℤ◌, max_int64}
use tenant_api_platform.Prelude.Runes.{Runes, runes_eq}
use tenant_api_platform.Audit.{ActorKind, Entry, is_some, is_empty}
use tenant_api_platform.Db.{Tx, pure, fail, check, gets, modify, ◌>>=◌, ◌>>◌}
use tenant_api_platform.Webhook.Outbox.Rows.{Outbox}
use tenant_api_platform.Invoice.Lifecycle.{
  Status, status_draft, status_open, status_paid, status_void, other_status, status_eq,
  can_transition,
}

pub record Item : Type 0 where
  pub id : ℕ
  pub invoice_id : ℕ
  pub tenant_id : ℕ
  pub position : ℕ
  pub description : Runes
  pub quantity : ℤ
  pub unit_price_minor : ℤ
  pub line_total_minor : ℤ

-- A row of `invoices`. A loaded invoice has its lines beside it.
pub record Invoice : Type 0 where
  pub id : ℕ
  pub tenant_id : ℕ
  pub number : ℕ
  pub status : Status
  pub currency : Runes
  pub subtotal_minor : ℤ
  pub tax_minor : ℤ
  pub total_minor : ℤ
  pub version : ℕ
  pub created_by : Option ℕ
  pub created_by_key : Option ℕ
  pub issued_at : Option ℕ
  pub paid_at : Option ℕ
  pub voided_at : Option ℕ
  pub created_at : ℕ
  pub updated_at : ℕ

pub record Loaded : Type 0 where
  pub invoice : Invoice
  pub items : List Item

pub record Counter : Type 0 where
  pub tenant_id : ℕ
  pub next_number : ℕ

-- A row of `invoice_events`.
pub record LogEvent : Type 0 where
  pub invoice_id : ℕ
  pub tenant_id : ℕ
  pub kind : Runes
  pub from_status : Option Status
  pub to_status : Option Status
  pub actor_id : Option ℕ
  pub actor_kind : ActorKind

-- The audited form of an invoice.
pub record AuditImage : Type 0 where
  pub id : ℕ
  pub number : ℕ
  pub status : Status
  pub currency : Runes
  pub subtotal_minor : ℤ
  pub tax_minor : ℤ
  pub total_minor : ℤ
  pub version : ℕ
  pub item_count : ℕ

-- The database, as far as invoices use it.
pub record Tables : Type 0 where
  pub counters : List Counter
  pub invoices : List Invoice
  pub items : List Item
  pub events : List LogEvent
  pub outbox : Outbox Loaded
  pub trail : List (Entry AuditImage)

abbrev pub max_int32 : ℕ
max_int32 = 2147483647

abbrev pub timestamps_ok : Status → Option ℕ → Option ℕ → Option ℕ → Bool
timestamps_ok status_draft issued paid voided =
    not (is_some issued) && not (is_some paid) && not (is_some voided)
timestamps_ok status_open issued paid voided =
    is_some issued && not (is_some paid) && not (is_some voided)
timestamps_ok status_paid issued paid voided =
    is_some issued && is_some paid && not (is_some voided)
timestamps_ok status_void issued paid voided = is_some voided && not (is_some paid)
timestamps_ok (other_status s) issued paid voided = false

abbrev pub exactly_one : Option ℕ → Option ℕ → Bool
exactly_one a b = if is_some a then not (is_some b) else is_some b

-- The column types and CHECK constraints of `invoices`. The shape of the currency is left out.
unfoldable pub invoice_ok : Invoice → Bool
unfolding ◌+ℤ◌
invoice_ok i =
    leb_ℤ (pos 0) i.subtotal_minor
    && leb_ℤ (pos 0) i.tax_minor
    && leb_ℤ (pos 0) i.total_minor
    && leb_ℤ i.total_minor (pos max_int64)
    && ltb 0 i.version
    && leb i.version max_int32
    && eqb_ℤ i.total_minor (i.subtotal_minor +ℤ i.tax_minor)
    && exactly_one i.created_by i.created_by_key
    && timestamps_ok i.status i.issued_at i.paid_at i.voided_at

-- The column types and CHECK constraints of `invoice_items`.
unfoldable pub item_ok : Item → Bool
unfolding ◌*ℤ◌
item_ok i =
    not (is_empty i.description)
    && leb (length i.description) 500
    && ltb_ℤ (pos 0) i.quantity
    && leb_ℤ i.quantity (pos max_int32)
    && leb_ℤ (pos 0) i.unit_price_minor
    && leb_ℤ i.line_total_minor (pos max_int64)
    && eqb_ℤ i.line_total_minor (i.unit_price_minor *ℤ i.quantity)

-- IS NOT DISTINCT FROM.
abbrev pub same_or_null : Option ℕ → Option ℕ → Bool
same_or_null none none = true
same_or_null (some a) (some b) = a == b
same_or_null _ _ = false

abbrev pub money_kept : Invoice → Invoice → Bool
money_kept o n =
    o.number == n.number
    && runes_eq o.currency n.currency
    && eqb_ℤ o.subtotal_minor n.subtotal_minor
    && eqb_ℤ o.tax_minor n.tax_minor
    && eqb_ℤ o.total_minor n.total_minor
    && same_or_null o.created_by n.created_by
    && same_or_null o.created_by_key n.created_by_key

abbrev pub moves : Status → Status → Bool
moves status_draft status_open = true
moves status_draft status_void = true
moves status_open status_paid = true
moves status_open status_void = true
moves _ _ = false

-- The trigger `invoice_guard`: legal moves, and money that is frozen once the draft is left.
unfoldable pub invoice_guard : Invoice → Invoice → Bool
invoice_guard o n =
    (status_eq o.status n.status || moves o.status n.status)
    && (status_eq o.status status_draft || money_kept o n)

abbrev pub has_key : ℕ → ℕ → Invoice → Bool
has_key id tenant_id i = i.id == id && i.tenant_id == tenant_id

abbrev pub on_invoice : ℕ → ℕ → Item → Bool
on_invoice invoice_id tenant_id i = i.invoice_id == invoice_id && i.tenant_id == tenant_id

-- INSERT INTO invoices.
unfoldable pub insert_invoice : Invoice → Tx Tables (Unit {0})
insert_invoice i = do
  taken ← gets (λ t.
      any (λ x. x.id == i.id) t.invoices
      || any (λ x. x.tenant_id == i.tenant_id && x.number == i.number) t.invoices)
  check (not taken && invoice_ok i) internal
  modify (λ t. record t { invoices = t.invoices ++ i ∷ [] })

abbrev is_draft : Option Invoice → Bool
is_draft none = false
is_draft (some i) = status_eq i.status status_draft

-- INSERT INTO invoice_items: the keys, the foreign key and the trigger `invoice_items_guard`, which
-- wants the parent to be a draft.
unfoldable pub insert_item : Item → Tx Tables (Unit {0})
insert_item i = do
  taken ← gets (λ t.
      any (λ x. x.id == i.id) t.items
      || any (λ x. x.invoice_id == i.invoice_id && x.position == i.position) t.items)
  parent ← gets (λ t. find (has_key i.invoice_id i.tenant_id) t.invoices)
  check (not taken && item_ok i && is_draft parent) internal
  modify (λ t. record t { items = t.items ++ i ∷ [] })

abbrev update_found :
    (Invoice → Bool) → (Invoice → Invoice) → Option Invoice → Tx Tables (Option Invoice)
update_found p f none = pure none
update_found p f (some i) = do
  check (invoice_ok (f i) && invoice_guard i (f i)) internal
  modify (λ t. record t { invoices = update p f t.invoices })
  pure (some (f i))

-- UPDATE invoices … WHERE p RETURNING, for a `p` that pins the primary key.
unfoldable pub update_invoice : (Invoice → Bool) → (Invoice → Invoice) → Tx Tables (Option Invoice)
update_invoice p f = do found ← gets (λ t. find p t.invoices); update_found p f found
