-- ===== src/Invoice/Validate/Laws.antt =====
-- What a validated line and a validated request are (internal/invoice/invoice.go).
use native.Mathlib.Nat.{mul-le-mul}
use tenant_api_platform.Prelude.{ℕ, ◌*◌, ◌≤◌, false, ok, ◌≡◌, sym, ap, ◌∙◌, ◌↔◌, arith}
use tenant_api_platform.Prelude.Int64.{ℤ, pos, negsuc, ◌≤ℤ◌, ◌<ℤ◌, max_int64}
use tenant_api_platform.Prelude.Runes.{byte_len, trim_space}
use tenant_api_platform.Audit.{is_empty}
use tenant_api_platform.Invoice.Money.{line_total}
use tenant_api_platform.Invoice.Money.Laws.{line_total-pos}
use tenant_api_platform.Invoice.Validate.{
  ItemInput, validate_item, max_quantity, max_unit_price, max_description_len,
}

-- A line as the limits want it.
pub record IsLine (i : ItemInput) : Type 0 where
  pub described : is_empty i.description ≡ false
  pub short : byte_len i.description ≤ max_description_len
  pub positive : pos 0 <ℤ i.quantity
  pub few : i.quantity ≤ℤ pos max_quantity
  pub priced : pos 0 ≤ℤ i.unit_price_minor
  pub cheap : i.unit_price_minor ≤ℤ pos max_unit_price

abbrev pub trimmed : ItemInput → ItemInput
trimmed i = record i { description = trim_space i.description }

within : (q u : ℕ) → q ≤ max_quantity → u ≤ max_unit_price → q * u ≤ max_int64
within q u hq hu = omega (arith, mul-le-mul hq hu)

-- Within the limits the overflow check passes.
line_total_within :
    (quantity unit_price : ℤ)
    → pos 0 <ℤ quantity
    → quantity ≤ℤ pos max_quantity
    → pos 0 ≤ℤ unit_price
    → unit_price ≤ℤ pos max_unit_price
    → (t : ℤ) × (line_total quantity unit_price ≡ ok t)
line_total_within (pos q) (pos u) h hq hp hu =
    (pos (q * u), ground (arith, line_total-pos q u, within q u))
line_total_within (pos q) (negsuc u) h hq hp hu = absurd (omega arith)
line_total_within (negsuc q) u h hq hp hu = absurd (omega arith)

-- What the checks before the last one let through.
limits : (i j : ItemInput) → validate_item i ≡ ok j → IsLine (trimmed i) × (j ≡ trimmed i)
unfolding validate_item
limits i j h = ground arith

admits :
    (i : ItemInput) (t : ℤ)
    → line_total i.quantity i.unit_price_minor ≡ ok t
    → IsLine (trimmed i)
    → validate_item i ≡ ok (trimmed i)
unfolding validate_item
admits i t e h = ground arith

-- A line is accepted exactly when, its text trimmed, it is within the limits, that of the text being
-- in bytes; and what is accepted is
-- then that line with the text trimmed. The overflow check of its total refuses no line that is
-- within them.
pub validate_item_iff :
    (i j : ItemInput) → (validate_item i ≡ ok j) ↔ (IsLine (trimmed i) × (j ≡ trimmed i))
validate_item_iff i j = (
  limits i j,
  λ (h, e).
      let (t, total) =
        line_total_within i.quantity i.unit_price_minor h.positive h.few h.priced h.cheap in
      admits i t total h ∙ ap ok (sym e),
)
