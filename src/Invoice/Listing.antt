-- ===== src/Invoice/Listing.antt =====
-- internal/invoice/store.go: List, the pages of a tenant's invoices. The lines of a listed invoice,
-- which are always empty, are left out.
pub mod Laws
use tenant_api_platform.Prelude.{
  ℕ, ◌+◌, Bool, true, false, not, ◌&&◌, ◌||◌, Result, ok, err, no_scope, Option, none, some, List,
  [], ◌∷◌, ◌==◌, if◌then◌else◌,
}
use tenant_api_platform.Prelude.Int64.{ℤ, pos_part}
use tenant_api_platform.Db.{Tx, gets, with_identity_tx}
use tenant_api_platform.Tenant.{Authorized, auth_valid, identity}
use tenant_api_platform.Cursor.{Position}
use tenant_api_platform.Listing.{Page, query, cut_result}
use tenant_api_platform.Invoice.Lifecycle.{
  Status, other_status, status_eq, normalize_status, normalize_page_size,
}
use tenant_api_platform.Invoice.Tables.{Invoice, Tables}

abbrev pub invoice_key : Invoice → Position
invoice_key i = record { time = i.created_at; id = i.id }

-- The WHERE clause, but for the position; the empty status is any.
abbrev pub shows_invoice : ℕ → Status → Invoice → Bool
shows_invoice tenant_id status i =
    i.tenant_id == tenant_id && (status_eq status (other_status []) || status_eq i.status status)

abbrev pub list_invoices_tx : Authorized → Status → Option Position → ℕ → Tx Tables (List Invoice)
list_invoices_tx auth status after limit =
    gets (λ t. query invoice_key (shows_invoice auth.scope.id status) after (limit + 1) t.invoices)

abbrev pub invoice_page_size : ℤ → ℕ
invoice_page_size limit = pos_part (normalize_page_size limit)

abbrev pub list_normalized :
    Authorized → Result Status → Option Position → ℤ → Tables → Result (Page Invoice) × Tables
list_normalized auth (err e) after limit t = (err e, t)
list_normalized auth (ok status) after limit t = cut_result invoice_key (invoice_page_size limit) (
    with_identity_tx (identity auth) (list_invoices_tx auth status after (invoice_page_size limit))
      t)

-- List.
unfoldable pub list_invoices :
    Authorized → Status → Option Position → ℤ → Tables → Result (Page Invoice) × Tables
list_invoices auth status after limit t =
    if not (auth_valid auth)
    then (err no_scope, t)
    else list_normalized auth (normalize_status status) after limit t
