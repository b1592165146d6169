-- ===== src/Invoice/Listing/Laws.antt =====
-- A client that pages through the invoices has them all (internal/invoice/store.go).
use mathlib.Core.List.{Perm}
use tenant_api_platform.Prelude.{
  ℕ, suc, ◌<◌, true, ok, none, some, List, [], ◌++◌, map, ◌≡◌, refl, arith, select, length, All,
}
use tenant_api_platform.Prelude.Int64.{ℤ}
use tenant_api_platform.Tenant.{Authorized, auth_valid}
use tenant_api_platform.Tenant.Laws.{with_identity_tx-auth}
use tenant_api_platform.Listing.{newer, follow}
use tenant_api_platform.Listing.Order.{Apart, Descending}
use tenant_api_platform.Listing.Walk.{successor}
use tenant_api_platform.Listing.Edited.{itself, follow_positions}
use tenant_api_platform.Invoice.Lifecycle.{Status, normalize_status, normalize_page_size}
use tenant_api_platform.Invoice.Tables.{Invoice, Tables}
use tenant_api_platform.Invoice.Listing.{
  invoice_key, shows_invoice, invoice_page_size, list_invoices_tx, list_invoices,
}

invoice_page_size-positive : (n : ℤ) → 0 < invoice_page_size n
unfolding normalize_page_size
invoice_page_size-positive n = ground arith

-- The table when the i-th request arrives.
abbrev pub grown_invoices : Tables → (ℕ → Invoice → Invoice) → (ℕ → List Invoice) → ℕ → Tables
grown_invoices t edit later i = record t { invoices = map (edit i) t.invoices ++ later i }

module _ (auth : Authorized) (status : Status) (limit : ℤ) (t : Tables)
    (edit : ℕ → Invoice → Invoice) (later : ℕ → List Invoice) where
  -- A client of a valid caller with a known status that asks for the next page as long as one is
  -- announced needs no more requests than there are rows, and one, to meet each row of its tenant
  -- with that status, or any, once, newest first, whatever edits are made between its requests, if the
  -- ids differ, the edits leave each row's id and time of creation and whether the status asked for
  -- selects it (so under a status none advances a row into or out of it), and the rows inserted are
  -- newer than those there at the first request, by time or, within one time, by id.
  pub follow-list_invoices :
      (fuel : ℕ)
      → auth_valid auth ≡ true
      → normalize_status status ≡ ok status
      → Apart invoice_key t.invoices
      → ((i : ℕ) (x : Invoice) → invoice_key (edit i x) ≡ invoice_key x)
      → ((i : ℕ) (x : Invoice)
          → shows_invoice auth.scope.id status (edit i x) ≡ shows_invoice auth.scope.id status x)
      → later 0 ≡ []
      → All
          (λ x. (i : ℕ) → All (λ y. newer (invoice_key y) (invoice_key x) ≡ true) (later i))
          t.invoices
      → length t.invoices < fuel
      → (all : List Invoice) × (follow
            (λ i after. (list_invoices auth status after limit (grown_invoices t edit later i)).0)
            fuel
            0
            none
          ≡ some all)
        × Perm
            (map invoice_key all)
            (map invoice_key (select (shows_invoice auth.scope.id status) t.invoices))
        × Descending itself (map invoice_key all)
  unfolding list_invoices
  follow-list_invoices fuel valid known apart stays kept now fresh h =
      let (m, e) = successor (invoice_page_size limit) (invoice_page_size-positive limit) in
      follow_positions invoice_key (shows_invoice auth.scope.id status) m t.invoices apart edit
        stays kept later
        (λ i after. (list_invoices auth status after limit (grown_invoices t edit later i)).0)
        (λ i after.
          rw
            (
              valid,
              known,
              e,
              with_identity_tx-auth auth (list_invoices_tx auth status after (suc m))
                  (grown_invoices t edit later i) valid,
            )
            refl)
        fresh fuel now h
