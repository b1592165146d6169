-- ===== src/Invoice/Store/Prepare/Laws.antt =====
-- What Create of internal/invoice/store.go computes before its transaction.
use mathlib.Core.Path.{subst}
use tenant_api_platform.Prelude.{
  ℕ, String, Result, ok, err, >>=-eq-ok, List, [], ◌∷◌, map, All, ◌≡◌, sym, arith,
}
use tenant_api_platform.Prelude.Int64.{ℤ, pos, negsuc, ◌+ℤ◌, ◌*ℤ◌, ◌≤ℤ◌, IsInt64}
use tenant_api_platform.Invoice.Money.{line_total, sum_totals, invoice_total}
use tenant_api_platform.Invoice.Money.Laws.{
  line_total-pos, line_total_iff, sum_ℤ, sum_totals_iff, invoice_total_iff, max_amount, NonNegative,
}
use tenant_api_platform.Invoice.Validate.{ItemInput, CreateInput, validate_create}
use tenant_api_platform.Invoice.Store.Prepare.{blame, line_totals, Prepared, prepare}

blame-eq-ok : {A : Type 0} (field : String) (r : Result A) {a : A} → blame field r ≡ ok a → r ≡ ok a
blame-eq-ok field (ok a) h = h
blame-eq-ok field (err e) h = cc

line_total-IsInt64 : (quantity unit_price t : ℤ) → line_total quantity unit_price ≡ ok t → IsInt64 t
line_total-IsInt64 (pos q) (pos u) t h = ground (arith, line_total-pos q u)
line_total-IsInt64 (pos q) (negsuc u) t h = absurd (unfold line_total in ground arith)
line_total-IsInt64 (negsuc q) (pos u) t h = absurd (unfold line_total in ground arith)
line_total-IsInt64 (negsuc q) (negsuc u) t h = absurd (unfold line_total in ground arith)

ok_inj : {A : Type 0} {a b : A} → ok a ≡ ok b → a ≡ b
ok_inj h = cc

-- The product that a line's total has to be.
abbrev pub product : ItemInput → ℤ
product i = i.quantity *ℤ i.unit_price_minor

line_totals-eq-ok :
    (items : List ItemInput) (totals : List ℤ)
    → line_totals items ≡ ok totals
    → (totals ≡ map product items) × All IsInt64 totals
unfolding line_totals
line_totals-eq-ok [] totals h = (cc, cc)
line_totals-eq-ok (i ∷ items) totals h =
    let (t, e1, h1) =
      >>=-eq-ok (blame "unit_price_minor" (line_total i.quantity i.unit_price_minor)) _ h in
    let (rest, e2, h2) = >>=-eq-ok (line_totals items) _ h1 in
    let one = blame-eq-ok _ _ e1 in
    let (same, fits) = line_totals-eq-ok items rest e2 in
    let (_, _, _, exact) = (line_total_iff i.quantity i.unit_price_minor t).0 one in
    subst (λ ts. (ts ≡ map product (i ∷ items)) × All IsInt64 ts) (ok_inj h2)
      (cc (exact, same), (line_total-IsInt64 _ _ t one, fits))

tax_IsInt64 :
    (upper : ℕ → ℕ) (c v : CreateInput) → validate_create upper c ≡ ok v → IsInt64 v.tax_minor
unfolding validate_create
tax_IsInt64 upper c v h = ground arith

-- The amounts of an invoice that is about to be created.
pub record Exact (p : Prepared) : Type 0 where
  pub lines : p.totals ≡ map product p.input.items
  pub nonnegative : All NonNegative p.totals
  pub subtotal : p.subtotal ≡ sum_ℤ p.totals
  pub tax : pos 0 ≤ℤ p.input.tax_minor
  pub total : p.total ≡ p.subtotal +ℤ p.input.tax_minor
  pub fits : p.total ≤ℤ max_amount

amounts-Exact :
    (v : CreateInput) (totals : List ℤ) (subtotal total : ℤ)
    → line_totals v.items ≡ ok totals
    → sum_totals totals ≡ ok subtotal
    → invoice_total subtotal v.tax_minor ≡ ok total
    → IsInt64 v.tax_minor
    → Exact (record { input = v; totals = totals; subtotal = subtotal; total = total })
amounts-Exact v totals subtotal total e f g tax =
    let (lines, fits) = line_totals-eq-ok v.items totals e in
    let (nonnegative, _, sum) = (sum_totals_iff totals subtotal fits).0 f in
    let (_, tax_nonnegative, bound, added) =
      (invoice_total_iff subtotal v.tax_minor total tax).0 g in
    record {
      lines = lines;
      nonnegative = nonnegative;
      subtotal = sum;
      tax = tax_nonnegative;
      total = added;
      fits = subst (λ x. x ≤ℤ max_amount) (sym added) bound;
    }

-- When the amounts are computed they are exact: each line's total is the product of its quantity and
-- price, the subtotal is their sum and the total adds the tax, as integers, without wrapping; no
-- line's total and no tax is negative, and the total is within int64.
pub prepare-Exact :
    (upper : ℕ → ℕ) (c : CreateInput) (p : Prepared) → prepare upper c ≡ ok p → Exact p
unfolding prepare
prepare-Exact upper c p h =
    let (v, e1, h1) = >>=-eq-ok (validate_create upper c) _ h in
    let (totals, e2, h2) = >>=-eq-ok (line_totals v.items) _ h1 in
    let (subtotal, e3, h3) = >>=-eq-ok (blame "items" (sum_totals totals)) _ h2 in
    let (total, e4, h4) = >>=-eq-ok (blame "tax_minor" (invoice_total subtotal v.tax_minor)) _ h3 in
    subst Exact (ok_inj h4) (
      amounts-Exact v totals subtotal total e2 (blame-eq-ok _ _ e3) (blame-eq-ok _ _ e4)
        (tax_IsInt64 upper c v e1))
