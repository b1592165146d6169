-- ===== src/Invoice/Store/Advance.antt =====
-- internal/invoice/store.go: Transition.
--
-- The closure is read and write: `transition_write` starts from a row that was read, so a statement
-- about it at any tables is one about what other transactions commit in between. The expected version
-- is one that the column's type holds.
pub mod Laws
pub mod Success
pub mod Announced
use tenant_api_platform.Prelude.{
  ℕ, ◌+◌, Bool, true, false, not, ◌&&◌, Result, ok, err, internal, no_scope, conflict, not_found,
  version_conflict, invalid, Option, none, some, List, [], ◌==◌, if◌then◌else◌, find,
}
use tenant_api_platform.Prelude.Int64.{ℤ, pos, leb_ℤ, eqb_ℤ}
use tenant_api_platform.Prelude.Runes.{Runes}
use tenant_api_platform.Db.{Tx, pure, fail, check, gets, with_identity_tx, ◌>>=◌, ◌>>◌}
use tenant_api_platform.Tenant.{Authorized, auth_valid, identity}
use tenant_api_platform.Webhook.Events.{event_text}
use tenant_api_platform.Audit.{is_empty}
use tenant_api_platform.Invoice.Lifecycle.{
  Status, status_open, status_paid, status_void, other_status, status_eq, Transition,
  can_transition, transition_to, event_for_transition, audit_action_for, transition_text,
}
use tenant_api_platform.Invoice.Validate.{validate_uuid}
use tenant_api_platform.Invoice.Tables.{Invoice, Loaded, Tables, has_key, update_invoice}
use tenant_api_platform.Invoice.Store.Statements.{
  Env, Call, audit_image, emit, audit_invoice, write_event, load_items,
}
use tenant_api_platform.Invoice.Store.Create.{read_invoice}

-- The WHERE clause: compare and set.
abbrev pub unchanged : ℕ → ℕ → ℤ → Status → Invoice → Bool
unchanged id tenant_id expected status i =
    has_key id tenant_id i && eqb_ℤ (pos i.version) expected && status_eq i.status status

-- The SET list.
unfoldable pub advanced : Call → Status → Invoice → Invoice
advanced call to i = record i {
  status = to;
  version = i.version + 1;
  updated_at = call.now;
  issued_at = if status_eq to status_open then some call.now else i.issued_at;
  paid_at = if status_eq to status_paid then some call.now else i.paid_at;
  voided_at = if status_eq to status_void then some call.now else i.voided_at;
}

-- What is recorded of a transition that has been written.
unfoldable pub announce :
    Env → Call → Authorized → Transition → Invoice → Invoice → Tx Tables Loaded
announce env call auth tr before updated = do
  items ← load_items updated.id updated.tenant_id
  write_event auth updated (transition_text tr) (some before.status) (some (transition_to tr))
  check (not (is_empty (event_text (event_for_transition tr)))) internal
  emit env call auth (event_for_transition tr) (record { invoice = updated; items = items })
  audit_invoice call auth (audit_action_for tr) updated
      (some (audit_image (record { invoice = before; items = [] })))
      (some (audit_image (record { invoice = updated; items = items })))
  pure (record { invoice = updated; items = items })

-- Zero rows: the row is read again for the message, and must still be there.
abbrev classify : Env → Call → Authorized → Transition → Invoice → Option Invoice → Tx Tables Loaded
classify env call auth tr before (some updated) = announce env call auth tr before updated
classify env call auth tr before none = do
  current ← gets (λ t. find (has_key before.id before.tenant_id) t.invoices)
  λ t. elim current [ none ↦ err internal | some i ↦ err version_conflict ]

unfoldable pub transition_write :
    Env → Call → Authorized → Transition → ℤ → Invoice → Tx Tables Loaded
transition_write env call auth tr expected before = do
  updated ←
      update_invoice (unchanged before.id before.tenant_id expected before.status)
        (advanced call (transition_to tr))
  classify env call auth tr before updated

unfoldable pub transition_tx : Env → Call → Authorized → ℕ → Transition → ℤ → Tx Tables Loaded
transition_tx env call auth id tr expected = do
  before ← read_invoice id auth.scope.id
  check (can_transition before.status (transition_to tr)) conflict
  transition_write env call auth tr expected before

abbrev pub transition_named :
    Env
    → Call
    → Authorized
    → ℕ
    → Transition
    → ℤ
    → Result (Unit {0})
    → Tables
    → Result Loaded × Tables
transition_named env call auth id tr expected (err e) t = (err e, t)
transition_named env call auth id tr expected (ok u) t =
    if status_eq (transition_to tr) (other_status [])
    then (err (invalid "transition"), t)
    else if leb_ℤ expected (pos 0)
    then (err (invalid "expected_version"), t)
    else with_identity_tx (identity auth) (transition_tx env call auth id tr expected) t

-- The method Transition.
unfoldable pub transition :
    Env → Call → Authorized → ℕ → Transition → ℤ → Tables → Result Loaded × Tables
transition env call auth id tr expected t =
    if not (auth_valid auth)
    then (err no_scope, t)
    else transition_named env call auth id tr expected (validate_uuid id) t
