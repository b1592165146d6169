-- ===== src/Invoice/Store/Create.antt =====
-- internal/invoice/store.go: Create and Get.
use tenant_api_platform.Prelude.{
  ℕ, suc, not, Result, ok, err, Err, internal, no_scope, not_found, Option, none, some, List, [],
  ◌∷◌, if◌then◌else◌, find,
}
use tenant_api_platform.Prelude.Int64.{ℤ}
use tenant_api_platform.Prelude.Runes.{runes}
use tenant_api_platform.Db.{Tx, pure, fail, gets, with_identity_tx, ◌>>=◌, ◌>>◌}
use tenant_api_platform.Tenant.{Authorized, auth_valid, is_machine, identity}
use tenant_api_platform.Webhook.Events.{invoice_created}
use tenant_api_platform.Invoice.Lifecycle.{status_draft}
use tenant_api_platform.Invoice.Validate.{ItemInput, CreateInput, validate_uuid}
use tenant_api_platform.Invoice.Tables.{
  Item, Invoice, Loaded, Tables, has_key, insert_invoice, insert_item,
}
use tenant_api_platform.Invoice.Store.Statements.{
  Env, Call, audit_image, emit, audit_invoice, write_event, allocate_number, load_items,
}
use tenant_api_platform.Invoice.Store.Prepare.{Prepared, prepare}

unfoldable pub new_invoice : Call → Authorized → Prepared → ℕ → Invoice
new_invoice call auth p number = record {
  id = call.invoice_id;
  tenant_id = auth.scope.id;
  number = number;
  status = status_draft;
  currency = p.input.currency;
  subtotal_minor = p.subtotal;
  tax_minor = p.input.tax_minor;
  total_minor = p.total;
  version = 1;
  created_by = if is_machine auth then none else some auth.user_id;
  created_by_key = if is_machine auth then some auth.key_id else none;
  issued_at = none;
  paid_at = none;
  voided_at = none;
  created_at = call.now;
  updated_at = call.now;
}

abbrev pub new_item : Call → Invoice → ℕ → ItemInput → ℤ → Item
new_item call inv position i total = record {
  id = call.item_id position;
  invoice_id = inv.id;
  tenant_id = inv.tenant_id;
  position = position;
  description = i.description;
  quantity = i.quantity;
  unit_price_minor = i.unit_price_minor;
  line_total_minor = total;
}

-- The loop over the lines. There is a total for each line; without one the code would panic, which
-- rolls back as well.
unfoldable pub insert_items : Call → Invoice → ℕ → List ItemInput → List ℤ → Tx Tables (List Item)
insert_items call inv position [] totals = pure []
insert_items call inv position (i ∷ inputs) [] = fail internal
insert_items call inv position (i ∷ inputs) (total ∷ totals) = do
  insert_item (new_item call inv position i total)
  rest ← insert_items call inv (suc position) inputs totals
  pure (new_item call inv position i total ∷ rest)

-- The closure of Create.
unfoldable pub create_tx : Env → Call → Authorized → Prepared → Tx Tables Loaded
create_tx env call auth p = do
  number ← allocate_number auth.scope.id
  insert_invoice (new_invoice call auth p number)
  items ← insert_items call (new_invoice call auth p number) 0 p.input.items p.totals
  write_event auth (new_invoice call auth p number) (runes "created") none (some status_draft)
  let l : Loaded = record { invoice = new_invoice call auth p number; items = items }
  emit env call auth invoice_created l
  audit_invoice call auth (runes "invoice.create") l.invoice none (some (audit_image l))
  pure l

abbrev pub create_prepared :
    Env → Call → Authorized → Result Prepared → Tables → Result Loaded × Tables
create_prepared env call auth (err e) t = (err e, t)
create_prepared env call auth (ok p) t =
    with_identity_tx (identity auth) (create_tx env call auth p) t

unfoldable pub create : Env → Call → Authorized → CreateInput → Tables → Result Loaded × Tables
create env call auth input t =
    if not (auth_valid auth)
    then (err no_scope, t)
    else create_prepared env call auth (prepare env.upper input) t

abbrev pub found_or : {A : Type 0} → Err → Option A → Tx Tables A
found_or e none = fail e
found_or e (some a) = pure a

-- SELECT … WHERE id = $1 AND tenant_id = $2.
unfoldable pub read_invoice : ℕ → ℕ → Tx Tables Invoice
read_invoice id tenant_id = do
  found ← gets (λ t. find (has_key id tenant_id) t.invoices)
  found_or not_found found

unfoldable pub get_tx : ℕ → ℕ → Tx Tables Loaded
get_tx id tenant_id = do
  inv ← read_invoice id tenant_id
  items ← load_items inv.id inv.tenant_id
  pure (record { invoice = inv; items = items })

abbrev get_checked : Authorized → ℕ → Result (Unit {0}) → Tables → Result Loaded × Tables
get_checked auth id (err e) t = (err e, t)
get_checked auth id (ok u) t = with_identity_tx (identity auth) (get_tx id auth.scope.id) t

unfoldable pub get : Authorized → ℕ → Tables → Result Loaded × Tables
get auth id t =
    if not (auth_valid auth) then (err no_scope, t) else get_checked auth id (validate_uuid id) t
