-- ===== src/Invoice/Store/Prepare.antt =====
-- internal/invoice/store.go: what Create computes before its transaction.
pub mod Laws
use tenant_api_platform.Prelude.{ℕ, String, Result, ok, err, invalid, ◌>>=◌, List, [], ◌∷◌}
use tenant_api_platform.Prelude.Int64.{ℤ}
use tenant_api_platform.Invoice.Money.{line_total, sum_totals, invoice_total}
use tenant_api_platform.Invoice.Validate.{ItemInput, CreateInput, validate_create}

-- `apperr.Invalid(field, err.Error())`.
abbrev pub blame : {A : Type 0} → String → Result A → Result A
blame field (ok a) = ok a
blame field (err e) = err (invalid field)

-- The loop over the validated lines.
unfoldable pub line_totals : List ItemInput → Result (List ℤ)
line_totals [] = ok []
line_totals (i ∷ items) = do
  lt ← blame "unit_price_minor" (line_total i.quantity i.unit_price_minor)
  rest ← line_totals items
  ok (lt ∷ rest)

pub record Prepared : Type 0 where
  pub input : CreateInput
  pub totals : List ℤ
  pub subtotal : ℤ
  pub total : ℤ

unfoldable pub prepare : (ℕ → ℕ) → CreateInput → Result Prepared
prepare upper c = do
  validated ← validate_create upper c
  totals ← line_totals validated.items
  subtotal ← blame "items" (sum_totals totals)
  total ← blame "tax_minor" (invoice_total subtotal validated.tax_minor)
  ok (record { input = validated; totals = totals; subtotal = subtotal; total = total })
