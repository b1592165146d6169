-- ===== src/Invoice/Tests.antt =====
-- Invoices that are created, edited, issued and paid (internal/invoice).
use tenant_api_platform.Prelude.{
  ◌+◌, true, false, Result, ok, err, version_conflict, some, none, [], ◌∷◌, ◌≡◌, ◌↔◌, refl, arith,
}
use tenant_api_platform.Prelude.Int64.{
  ℤ, pos, ◌+ℤ◌, ◌-ℤ◌, ◌*ℤ◌, IsInt64, wrap64, add64, sub64, mul64, div64,
}
use tenant_api_platform.Prelude.Runes.{
  runes, runes_eq, trim_space, trim_left, trim_right, cons_trimmed, is_space, byte_len,
}
use tenant_api_platform.Authz.Roles.{admin, valid_role}
use tenant_api_platform.Db.{with_identity_tx, identity_valid}
use tenant_api_platform.Tenant.{
  Authorized, kind_human, auth_valid, scope_valid, identity, is_machine,
}
use tenant_api_platform.Audit.{actor_from_authorized, validate_entry, write}
use tenant_api_platform.Webhook.Outbox.Queue.{enqueue, subscribed}
use tenant_api_platform.Invoice.Money.{line_total, sum_totals, sum_from, invoice_total}
use tenant_api_platform.Invoice.Money.Laws.{sum_ℤ}
use tenant_api_platform.Invoice.Lifecycle.{
  Status-discrete, status_draft, status_open, status_eq, transition_issue, transition_void,
  can_transition, transition_to, event_for_transition,
}
use tenant_api_platform.Invoice.Lifecycle.Laws.{invoice_guard-can_transition}
use tenant_api_platform.Invoice.Validate.{
  ItemInput, CreateInput, validate_item, validate_items, validate_create, validate_uuid,
  supported_currency,
}
use tenant_api_platform.Invoice.Validate.Laws.{validate_item_iff, IsLine, trimmed}
use tenant_api_platform.Invoice.Tables.{
  Item, Invoice, Loaded, Tables, invoice_ok, invoice_guard, money_kept, update_invoice,
}
use tenant_api_platform.Invoice.Store.Statements.{
  Env, Call, audit_image, emit, audit_invoice, event_ok, write_event, load_items, by_position,
  insert_by_position,
}
use tenant_api_platform.Invoice.Store.Prepare.{Prepared, prepare, line_totals}
use tenant_api_platform.Invoice.Store.Prepare.Laws.{Exact, prepare-Exact}
use tenant_api_platform.Invoice.Store.Create.{read_invoice}
use tenant_api_platform.Invoice.Store.Edit.{read_totals, write_totals, sum_lines}
use tenant_api_platform.Invoice.Store.Edit.Laws.{Recomputed, write_totals-Recomputed}
use tenant_api_platform.Invoice.Store.Advance.{
  advanced, announce, transition_write, transition_tx, transition,
}
use tenant_api_platform.Invoice.Store.Advance.Laws.{transition_write-once}
use tenant_api_platform.Webhook.Events.{invoice_issued}
use tenant_api_platform.Invoice.Store.Advance.Announced.{Announced, transition-Announced}
use tenant_api_platform.Invoice.Store.Advance.Success.{Made, transition-Made}

abbrev env : Env
env = record { events = true; payload_size = λ e l. 900; upper = λ r. r }

abbrev call : Call
call = record {
  now = 1000;
  invoice_id = 50;
  item_id = λ n. 60 + n;
  event_id = 70;
  delivery_id = λ n. 80 + n;
  request_id = runes "r1";
}

abbrev alice : Authorized
alice = record {
  scope = record { id = 7 };
  kind = kind_human;
  user_id = 3;
  role = admin;
  key_id = 0;
}

abbrev hours : ItemInput
hours = record { description = runes " work "; quantity = pos 3; unit_price_minor = pos 2500 }

abbrev request : CreateInput
request = record { currency = runes " eur"; tax_minor = pos 100; items = hours ∷ [] }

abbrev hours_line : ItemInput
hours_line = record { description = runes "work"; quantity = pos 3; unit_price_minor = pos 2500 }

abbrev prepared : Prepared
prepared = record {
  input = record { currency = runes "EUR"; tax_minor = pos 100; items = hours_line ∷ [] };
  totals = pos 7500 ∷ [];
  subtotal = pos 7500;
  total = pos 7600;
}

abbrev draft : Invoice
draft = record {
  id = 50;
  tenant_id = 7;
  number = 1;
  status = status_draft;
  currency = runes "EUR";
  subtotal_minor = pos 7500;
  tax_minor = pos 100;
  total_minor = pos 7600;
  version = 1;
  created_by = some 3;
  created_by_key = none;
  issued_at = none;
  paid_at = none;
  voided_at = none;
  created_at = 1000;
  updated_at = 1000;
}

abbrev line : Item
line = record {
  id = 60;
  invoice_id = 50;
  tenant_id = 7;
  position = 0;
  description = runes "work";
  quantity = pos 3;
  unit_price_minor = pos 2500;
  line_total_minor = pos 7500;
}

-- A database that holds the draft and its line.
abbrev tables : Tables
tables = record {
  counters = [];
  invoices = draft ∷ [];
  items = line ∷ [];
  events = [];
  outbox = record { endpoints = []; rows = [] };
  trail = [];
}

abbrev issued : Loaded
issued = record {
  invoice = record draft {
    status = status_open;
    version = 2;
    issued_at = some 1000;
    updated_at = 1000;
  };
  items = line ∷ [];
}

issue_alice : (transition env call alice 50 transition_issue (pos 1) tables).0 ≡ ok issued
unfolding transition auth_valid scope_valid valid_role validate_uuid transition_to with_identity_tx
    identity identity_valid transition_tx read_invoice can_transition Status-discrete
    transition_write update_invoice advanced invoice_ok invoice_guard ◌+ℤ◌ runes_eq announce
    load_items by_position insert_by_position write_event event_ok actor_from_authorized is_machine
    event_for_transition emit enqueue subscribed audit_invoice write validate_entry audit_image
issue_alice = refl

-- The same database, with an endpoint of the tenant that listens.
abbrev listening : Tables
listening = record tables {
  outbox = record {
    endpoints =
        record {
          id = 90;
          tenant_id = 7;
          url = [];
          secret = [];
          events = invoice_issued ∷ [];
          active = true;
        }
        ∷ [];
    rows = [];
  };
}

issue_heard : (transition env call alice 50 transition_issue (pos 1) listening).0 ≡ ok issued
unfolding transition auth_valid scope_valid valid_role validate_uuid transition_to with_identity_tx
    identity identity_valid transition_tx read_invoice can_transition Status-discrete
    transition_write update_invoice advanced invoice_ok invoice_guard ◌+ℤ◌ runes_eq announce
    load_items by_position insert_by_position write_event event_ok actor_from_authorized is_machine
    event_for_transition emit enqueue subscribed audit_invoice write validate_entry audit_image
issue_heard = refl

transition-Announced_example :
    Announced env call alice 50 transition_issue issued listening
      (transition env call alice 50 transition_issue (pos 1) listening).1
transition-Announced_example =
    transition-Announced env call alice 50 transition_issue (pos 1) issued listening issue_heard

abbrev tables_after : Result (Loaded × Tables) → Tables
tables_after (ok (l, t)) = t
tables_after (err e) = tables

abbrev once_issued : Tables
once_issued = tables_after (transition_write env call alice transition_issue (pos 1) draft tables)

issue_written :
    transition_write env call alice transition_issue (pos 1) draft tables ≡ ok (issued, once_issued)
unfolding transition_write Status-discrete transition_to update_invoice advanced invoice_ok
    invoice_guard ◌+ℤ◌ runes_eq can_transition announce load_items by_position insert_by_position
    write_event event_ok actor_from_authorized is_machine event_for_transition emit enqueue
    subscribed audit_invoice write validate_entry audit_image
issue_written = refl

prepare-request : prepare env.upper request ≡ ok prepared
unfolding prepare validate_create validate_items validate_item supported_currency runes_eq byte_len
    trim_space trim_left trim_right cons_trimmed is_space line_totals line_total sum_totals sum_from
    invoice_total wrap64 add64 sub64 mul64 div64 ◌+ℤ◌ ◌-ℤ◌ ◌*ℤ◌
prepare-request = refl

abbrev touched : Loaded
touched = record { invoice = record draft { version = 2 }; items = line ∷ [] }

abbrev edit_totals : ℤ × ℤ
edit_totals = (touched.invoice.subtotal_minor, touched.invoice.total_minor)

abbrev once_edited : Tables
once_edited = tables_after (
    write_totals call alice draft (runes "invoice.item_added") (runes "item_added") edit_totals
      tables)

totals_read : read_totals draft tables ≡ ok (edit_totals, tables)
unfolding read_totals sum_lines sum_ℤ invoice_total sub64 add64 wrap64 ◌+ℤ◌ ◌-ℤ◌
totals_read = refl

edit_written :
    write_totals call alice draft
      (runes "invoice.item_added")
      (runes "item_added")
      edit_totals
      tables
    ≡ ok (touched, once_edited)
unfolding write_totals ◌+ℤ◌ ◌-ℤ◌ update_invoice invoice_ok invoice_guard Status-discrete runes_eq
    load_items by_position insert_by_position write_event event_ok actor_from_authorized is_machine
    audit_invoice write validate_entry audit_image
edit_written = refl

tax_fits : IsInt64 (pos 100)
tax_fits = record { upper = omega arith; lower = omega arith }

draft_open_apart : status_eq status_draft status_open ≡ false
unfolding Status-discrete
draft_open_apart = refl

transition-Made_example :
    Made call alice 50 transition_issue
      (pos 1)
      issued
      tables
      (transition env call alice 50 transition_issue (pos 1) tables).1
transition-Made_example =
    transition-Made env call alice 50 transition_issue (pos 1) issued tables issue_alice

transition_write-once_example :
    transition_write env call alice transition_void (pos 1) draft once_issued ≡ err version_conflict
transition_write-once_example =
    transition_write-once env call call alice alice transition_issue transition_void (pos 1) draft
      issued tables once_issued issue_written

prepare-Exact_example : Exact prepared
prepare-Exact_example = prepare-Exact env.upper request prepared prepare-request

write_totals-Recomputed_example : Recomputed call draft touched tables once_edited
write_totals-Recomputed_example =
    write_totals-Recomputed call alice draft (runes "invoice.item_added") (runes "item_added")
      edit_totals touched tables once_edited tables tables tax_fits totals_read refl edit_written

money_stays : money_kept draft (advanced call status_open draft) ≡ true
unfolding advanced runes_eq
money_stays = refl

status_leaves : status_eq draft.status (advanced call status_open draft).status ≡ false
unfolding advanced Status-discrete
status_leaves = refl

invoice_guard-can_transition_example :
    invoice_guard draft (advanced call status_open draft)
    ≡ can_transition draft.status (advanced call status_open draft).status
invoice_guard-can_transition_example =
    invoice_guard-can_transition draft (advanced call status_open draft) money_stays status_leaves

validate_item_iff_example :
    (validate_item hours ≡ ok hours_line) ↔ (IsLine (trimmed hours) × (hours_line ≡ trimmed hours))
validate_item_iff_example = validate_item_iff hours hours_line
