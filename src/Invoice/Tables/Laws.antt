-- ===== src/Invoice/Tables/Laws.antt =====
-- What a statement on the tables does when it goes through (migration 0008).
use tenant_api_platform.Prelude.{
  Bool, true, ok, some, ◌≡◌, arith, inl, inr, Option-cases, find, update,
}
use tenant_api_platform.Invoice.Tables.{Invoice, Tables, update_invoice, invoice_ok, invoice_guard}

-- One row was found; it may become what it became.
pub record Updated (p : Invoice → Bool) (f : Invoice → Invoice) (x : Invoice) (t t' : Tables)
    : Type 0 where
  pub found : Invoice
  pub was : find p t.invoices ≡ some found
  pub becomes : x ≡ f found
  pub valid : invoice_ok (f found) ≡ true
  pub permitted : invoice_guard found (f found) ≡ true
  pub tables : t' ≡ record t { invoices = update p f t.invoices }

module _ (p : Invoice → Bool) (f : Invoice → Invoice) (t t' : Tables) where
  pub update_invoice-eq-some :
      (x : Invoice) → update_invoice p f t ≡ ok (some x, t') → Updated p f x t t'
  unfolding update_invoice
  update_invoice-eq-some x h = elim (Option-cases (find p t.invoices)) [
    | inl missing ↦ absurd (ground arith)
    | inr (i, e) ↦ record {
      found = i;
      was = e;
      becomes = ground arith;
      valid = ground arith;
      permitted = ground arith;
      tables = ground arith;
    }
  ]
