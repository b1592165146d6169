-- ===== src/Invoice/Store/Edit/Laws.antt =====
-- What an edit of a draft leaves (recomputeTotals of internal/invoice/store.go).
use mathlib.Core.Path.{subst}
use tenant_api_platform.Prelude.{
  Result, ok, Option, none, some, List, [], map, ◌≡◌, sym, ◌∙◌, ap, arith, inl, inr, Result-cases,
  select,
}
use tenant_api_platform.Prelude.Int64.{ℤ, pos, ◌+ℤ◌, ◌≤ℤ◌, IsInt64}
use tenant_api_platform.Prelude.Runes.{Runes}
use tenant_api_platform.Tenant.{Authorized}
use tenant_api_platform.Invoice.Money.{invoice_total}
use tenant_api_platform.Invoice.Money.Laws.{sum_ℤ, invoice_total_iff, max_amount}
use tenant_api_platform.Invoice.Tables.{Item, Invoice, Loaded, Tables, on_invoice, update_invoice}
use tenant_api_platform.Invoice.Tables.Laws.{Updated, update_invoice-eq-some}
use tenant_api_platform.Invoice.Store.Statements.{
  Call, load_items, write_event, audit_invoice, audit_image,
}
use tenant_api_platform.Invoice.Store.Statements.Laws.{
  Keeps-trans, audit_invoice-Keeps, write_event-Keeps,
}
use tenant_api_platform.Invoice.Store.Edit.{
  sum_lines, is_draft_row, with_totals, read_totals, write_totals,
}

-- The sum of the invoice's lines in the tables, as an integer.
abbrev pub sum_of_lines : Invoice → Tables → ℤ
sum_of_lines i t =
    sum_ℤ (map (λ x. x.line_total_minor) (select (on_invoice i.id i.tenant_id) t.items))

-- The totals that were written are those of the lines.
pub record Recomputed (call : Call) (before : Invoice) (l : Loaded) (t t' : Tables) : Type 0 where
  pub subtotal : l.invoice.subtotal_minor ≡ sum_of_lines before t'
  pub tax : pos 0 ≤ℤ before.tax_minor
  pub total : l.invoice.total_minor ≡ sum_of_lines before t' +ℤ before.tax_minor
  pub fits : l.invoice.total_minor ≤ℤ max_amount
  pub sum : ℤ
  pub amount : ℤ
  pub row :
      Updated
        (is_draft_row before.id before.tenant_id)
        (with_totals call sum amount)
        l.invoice
        t
        (record t { invoices = t'.invoices })
  pub items : t'.items ≡ t.items

module _ (before : Invoice) where
  read_totals-eq-ok :
      (t0 s : Tables) (totals : ℤ × ℤ)
      → read_totals before t0 ≡ ok (totals, s)
      → (totals.0 ≡ sum_of_lines before t0)
        × (invoice_total (sum_of_lines before t0) before.tax_minor ≡ ok totals.1)
  unfolding read_totals sum_lines
  read_totals-eq-ok t0 s totals h =
      elim (Result-cases (invoice_total (sum_of_lines before t0) before.tax_minor)) [
        | inr (e, f) ↦ absurd (ground arith)
        | inl (total, e) ↦ (ground arith, ground arith)
      ]

module _ (call : Call) (auth : Authorized) (before : Invoice) (action kind : Runes) (totals : ℤ × ℤ)
    (l : Loaded) (t t' : Tables) where
  abbrev set_totals : Tables → Result (Option Invoice × Tables)
  set_totals =
      update_invoice (is_draft_row before.id before.tenant_id) (with_totals call totals.0 totals.1)

  write_totals-eq-ok :
      write_totals call auth before action kind totals t ≡ ok (l, t')
      → (t1 t2 : Tables) × (set_totals t ≡ ok (some l.invoice, t1))
        × (write_event auth l.invoice kind none none t1 ≡ ok (tt, t2))
        × (audit_invoice call auth action l.invoice
              (some (audit_image (record { invoice = before; items = [] })))
              (some (audit_image l))
              t2
            ≡ ok (tt, t'))
  unfolding write_totals load_items
  write_totals-eq-ok h = elim (Result-cases (set_totals t)) [
    | inr (_, f) ↦ absurd (ground arith)
    | inl ((none, t1), f) ↦ absurd (ground arith)
    | inl ((some i, t1), f) ↦ elim (Result-cases (write_event auth i kind none none t1)) [
      | inr (_, g) ↦ absurd (ground arith)
      | inl ((_, t2), g) ↦
          elim (Result-cases (
            audit_invoice call auth action i
              (some (audit_image (record { invoice = before; items = [] })))
              (some (audit_image (record { invoice = i; items = l.items }))) t2)) [
                | inr (_, k) ↦ absurd (ground arith)
                | inl ((_, t3), k) ↦ (t1, t2, ground arith, ground arith, ground arith)
              ]
    ]
  ]

  -- Totals that were read on one state of the tables and written on a later one, where the invoice
  -- has the same lines and its tax is an int64: the subtotal is then the sum, as integers, of the lines
  -- that are in the tables after the write, and the total is that sum and the tax, which is not
  -- negative, within int64; the row written was a draft of that key, it passed the table's constraints
  -- and its trigger, and its version has gone up by one; the lines are as they were.
  pub write_totals-Recomputed :
      (t0 s : Tables)
      → IsInt64 before.tax_minor
      → read_totals before t0 ≡ ok (totals, s)
      → select (on_invoice before.id before.tenant_id) t.items
        ≡ select (on_invoice before.id before.tenant_id) t0.items
      → write_totals call auth before action kind totals t ≡ ok (l, t')
      → Recomputed call before l t t'
  write_totals-Recomputed t0 s tax r lines h =
      let (sum_read, e) = read_totals-eq-ok before t0 s totals r in
      let (t1, t2, f, g, k) = write_totals-eq-ok h in
      let u = update_invoice-eq-some _ (with_totals call totals.0 totals.1) t t1 l.invoice f in
      let keeps =
        Keeps-trans (write_event-Keeps auth l.invoice kind none none t1 t2 g).0
          (audit_invoice-Keeps call auth action l.invoice _ _ t2 t' k).0 in
      let (_, nonnegative, bound, exact) =
        (invoice_total_iff (sum_of_lines before t0) before.tax_minor totals.1 tax).0 e in
      let same : t'.items ≡ t.items = keeps.items ∙ ap (λ x. x.items) u.tables in
      let sums : sum_of_lines before t' ≡ sum_of_lines before t0 =
        ap
          (λ (x : List Item).
            sum_ℤ
              (map (λ y. y.line_total_minor) (select (on_invoice before.id before.tenant_id) x)))
          same
        ∙ ap (λ (x : List Item). sum_ℤ (map (λ y. y.line_total_minor) x)) lines in
      let sub : l.invoice.subtotal_minor ≡ totals.0 = ap (λ x. x.subtotal_minor) u.becomes in
      let tot : l.invoice.total_minor ≡ totals.1 = ap (λ x. x.total_minor) u.becomes in
      record {
        subtotal = sub ∙ sum_read ∙ sym sums;
        tax = nonnegative;
        total = tot ∙ exact ∙ ap (λ x. x +ℤ before.tax_minor) (sym sums);
        fits = subst (λ x. x ≤ℤ max_amount) (sym (tot ∙ exact)) bound;
        sum = totals.0;
        amount = totals.1;
        row = record {
          found = u.found;
          was = u.was;
          becomes = u.becomes;
          valid = u.valid;
          permitted = u.permitted;
          tables = cc (keeps.invoices, u.tables);
        };
        items = same;
      }
