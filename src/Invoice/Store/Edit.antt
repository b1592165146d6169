-- ===== src/Invoice/Store/Edit.antt =====
-- internal/invoice/store.go: AddItem, RemoveItem and recomputeTotals.
pub mod Laws
use tenant_api_platform.Prelude.{
  ℕ, ◌+◌, suc, max, Bool, true, false, not, ◌&&◌, Result, ok, err, Err, internal, no_scope,
  conflict, not_found, Option, none, some, List, [], ◌∷◌, if◌then◌else◌, ◌==◌, select, any, map,
}
use tenant_api_platform.Prelude.Int64.{ℤ, pos, leb_ℤ, max_int64}
use tenant_api_platform.Prelude.Runes.{Runes, runes}
use tenant_api_platform.Db.{
  Tx, pure, fail, lift, check, gets, modify, with_identity_tx, ◌>>=◌, ◌>>◌,
}
use tenant_api_platform.Tenant.{Authorized, auth_valid, identity}
use tenant_api_platform.Invoice.Money.{line_total, invoice_total}
use tenant_api_platform.Invoice.Money.Laws.{sum_ℤ}
use tenant_api_platform.Invoice.Lifecycle.{status_draft, status_eq}
use tenant_api_platform.Invoice.Validate.{ItemInput, validate_item, validate_uuid}
use tenant_api_platform.Invoice.Tables.{
  Item, Invoice, Loaded, Tables, has_key, on_invoice, insert_item, update_invoice,
}
use tenant_api_platform.Invoice.Store.Statements.{
  Env, Call, audit_image, audit_invoice, write_event, load_items,
}
use tenant_api_platform.Invoice.Store.Prepare.{blame}
use tenant_api_platform.Invoice.Store.Create.{found_or, read_invoice}

-- SELECT COALESCE(sum(line_total_minor), 0): a sum beyond int64 does not scan.
unfoldable pub sum_lines : ℕ → ℕ → Tx Tables ℤ
sum_lines invoice_id tenant_id = do
  sum ← gets (λ t.
      sum_ℤ (map (λ i. i.line_total_minor) (select (on_invoice invoice_id tenant_id) t.items)))
  check (leb_ℤ sum (pos max_int64)) internal
  pure sum

abbrev pub is_draft_row : ℕ → ℕ → Invoice → Bool
is_draft_row id tenant_id i = has_key id tenant_id i && status_eq i.status status_draft

abbrev pub with_totals : Call → ℤ → ℤ → Invoice → Invoice
with_totals call subtotal total i = record i {
  subtotal_minor = subtotal;
  total_minor = total;
  version = i.version + 1;
  updated_at = call.now;
}

-- recomputeTotals up to its UPDATE: the sum of the lines, and the total that follows.
unfoldable pub read_totals : Invoice → Tx Tables (ℤ × ℤ)
read_totals before = do
  subtotal ← sum_lines before.id before.tenant_id
  total ← lift (blame "tax_minor" (invoice_total subtotal before.tax_minor))
  pure (subtotal, total)

-- Its UPDATE and what follows. The images of the trail: the row before has no lines loaded.
unfoldable pub write_totals : Call → Authorized → Invoice → Runes → Runes → ℤ × ℤ → Tx Tables Loaded
write_totals call auth before action kind totals = do
  updated ←
      update_invoice (is_draft_row before.id before.tenant_id) (with_totals call totals.0 totals.1)
  after ← found_or conflict updated
  items ← load_items after.id after.tenant_id
  write_event auth after kind none none
  audit_invoice call auth action after
      (some (audit_image (record { invoice = before; items = [] })))
      (some (audit_image (record { invoice = after; items = items })))
  pure (record { invoice = after; items = items })

-- The two, where nothing commits in between: each statement sees what is committed when it starts.
unfoldable pub recompute_totals : Call → Authorized → Invoice → Runes → Runes → Tx Tables Loaded
recompute_totals call auth before action kind = do
  totals ← read_totals before
  write_totals call auth before action kind totals

-- COALESCE(max(position) + 1, 0).
unfoldable pub next_position : List Item → ℕ
next_position [] = 0
next_position (i ∷ items) = max (i.position + 1) (next_position items)

unfoldable pub add_item_tx : Call → Authorized → ℕ → ItemInput → ℤ → Tx Tables Loaded
add_item_tx call auth id i total = do
  before ← read_invoice id auth.scope.id
  check (status_eq before.status status_draft) conflict
  position ← gets (λ t. next_position (select (on_invoice id before.tenant_id) t.items))
  insert_item (record {
    id = call.item_id 0;
    invoice_id = id;
    tenant_id = before.tenant_id;
    position = position;
    description = i.description;
    quantity = i.quantity;
    unit_price_minor = i.unit_price_minor;
    line_total_minor = total;
  })
  recompute_totals call auth before (runes "invoice.item_added") (runes "item_added")

abbrev pub add_priced :
    Call → Authorized → ℕ → ItemInput → Result ℤ → Tables → Result Loaded × Tables
add_priced call auth id i (err e) t = (err e, t)
add_priced call auth id i (ok total) t =
    with_identity_tx (identity auth) (add_item_tx call auth id i total) t

abbrev pub add_validated :
    Call → Authorized → ℕ → Result ItemInput → Tables → Result Loaded × Tables
add_validated call auth id (err e) t = (err e, t)
add_validated call auth id (ok i) t =
    add_priced call auth id i (blame "unit_price_minor" (line_total i.quantity i.unit_price_minor))
      t

abbrev pub add_named :
    Call → Authorized → ℕ → Result (Unit {0}) → ItemInput → Tables → Result Loaded × Tables
add_named call auth id (err e) input t = (err e, t)
add_named call auth id (ok u) input t = add_validated call auth id (validate_item input) t

unfoldable pub add_item : Call → Authorized → ℕ → ItemInput → Tables → Result Loaded × Tables
add_item call auth id input t =
    if not (auth_valid auth)
    then (err no_scope, t)
    else add_named call auth id (validate_uuid id) input t

abbrev pub is_item : ℕ → ℕ → ℕ → Item → Bool
is_item item_id invoice_id tenant_id i = i.id == item_id && on_invoice invoice_id tenant_id i

unfoldable pub remove_item_tx : Call → Authorized → ℕ → ℕ → Tx Tables Loaded
remove_item_tx call auth invoice_id item_id = do
  before ← read_invoice invoice_id auth.scope.id
  check (status_eq before.status status_draft) conflict
  there ← gets (λ t. any (is_item item_id invoice_id before.tenant_id) t.items)
  check there not_found
  modify (λ t. record t {
    items = select (λ i. not (is_item item_id invoice_id before.tenant_id i)) t.items;
  })
  recompute_totals call auth before (runes "invoice.item_removed") (runes "item_removed")

abbrev pub remove_named :
    Call
    → Authorized
    → ℕ
    → ℕ
    → Result (Unit {0})
    → Result (Unit {0})
    → Tables
    → Result Loaded × Tables
remove_named call auth invoice_id item_id (err e) second t = (err e, t)
remove_named call auth invoice_id item_id (ok u) (err e) t = (err e, t)
remove_named call auth invoice_id item_id (ok u) (ok v) t =
    with_identity_tx (identity auth) (remove_item_tx call auth invoice_id item_id) t

unfoldable pub remove_item : Call → Authorized → ℕ → ℕ → Tables → Result Loaded × Tables
remove_item call auth invoice_id item_id t =
    if not (auth_valid auth)
    then (err no_scope, t)
    else remove_named call auth invoice_id item_id (validate_uuid invoice_id)
        (validate_uuid item_id) t
