-- ===== src/Invoice/Validate.antt =====
-- internal/invoice/invoice.go: the validation of what a client supplies.
--
-- `upper` is unicode.ToUpper on the runes beyond ASCII. The messages are left out.
pub mod Laws
use tenant_api_platform.Prelude.{
  ℕ, ◌-◌, Bool, true, false, not, ◌&&◌, ◌||◌, Result, ok, err, invalid, not_found, ◌>>=◌, List, [],
  ◌∷◌, map, ltb, leb, ◌==◌, if◌then◌else◌, any, length,
}
use tenant_api_platform.Prelude.Int64.{ℤ, pos, ltb_ℤ, leb_ℤ}
use tenant_api_platform.Prelude.Runes.{Runes, runes, runes_eq, byte_len, trim_space}
use tenant_api_platform.Audit.{is_empty}
use tenant_api_platform.Invoice.Money.{line_total}

abbrev pub max_quantity : ℕ
max_quantity = 1_000_000

abbrev pub max_unit_price : ℕ
max_unit_price = 1_000_000_000_000

abbrev pub max_items : ℕ
max_items = 500

abbrev pub max_tax : ℕ
max_tax = 1_000_000_000_000_000

abbrev pub max_description_len : ℕ
max_description_len = 500

abbrev pub max_currency_len : ℕ
max_currency_len = 3

abbrev pub supported_currencies : List Runes
supported_currencies =
    runes "AUD"
    ∷ runes "CAD"
    ∷ runes "CHF"
    ∷ runes "EUR"
    ∷ runes "GBP"
    ∷ runes "INR"
    ∷ runes "JPY"
    ∷ runes "SGD"
    ∷ runes "USD"
    ∷ []

unfoldable pub supported_currency : Runes → Bool
unfolding runes_eq
supported_currency cur = any (runes_eq cur) supported_currencies

-- strings.ToUpper, rune by rune.
abbrev pub to_upper : (ℕ → ℕ) → Runes → Runes
to_upper upper =
    map λ r. if ltb r 0x80 then (if leb b'a' r && leb r b'z' then r - 32 else r) else upper r

-- ItemInput, and AddItemInput, which has the same fields.
pub record ItemInput : Type 0 where
  pub description : Runes
  pub quantity : ℤ
  pub unit_price_minor : ℤ

pub record CreateInput : Type 0 where
  pub currency : Runes
  pub tax_minor : ℤ
  pub items : List ItemInput

abbrev or_invalid : {A B : Type 0} → Result A → Result B → Result B
or_invalid (ok a) rest = rest
or_invalid (err e) rest = err (invalid "unit_price_minor")

unfoldable pub validate_item : ItemInput → Result ItemInput
unfolding trim_space byte_len line_total
validate_item i =
    let description = trim_space i.description in
    if is_empty description
    then err (invalid "description")
    else if ltb max_description_len (byte_len description)
    then err (invalid "description")
    else if leb_ℤ i.quantity (pos 0)
    then err (invalid "quantity")
    else if ltb_ℤ (pos max_quantity) i.quantity
    then err (invalid "quantity")
    else if ltb_ℤ i.unit_price_minor (pos 0)
    then err (invalid "unit_price_minor")
    else if ltb_ℤ (pos max_unit_price) i.unit_price_minor
    then err (invalid "unit_price_minor")
    else or_invalid (line_total i.quantity i.unit_price_minor)
        (ok (record i { description = description }))

-- The loop over the lines.
unfoldable pub validate_items : List ItemInput → Result (List ItemInput)
validate_items [] = ok []
validate_items (i ∷ items) = do
  norm ← validate_item i
  rest ← validate_items items
  ok (norm ∷ rest)

unfoldable pub validate_create : (ℕ → ℕ) → CreateInput → Result CreateInput
validate_create upper c =
    let cur = to_upper upper (trim_space c.currency) in
    if not (byte_len cur == max_currency_len)
    then err (invalid "currency")
    else if not (supported_currency cur)
    then err (invalid "currency")
    else if ltb_ℤ c.tax_minor (pos 0)
    then err (invalid "tax_minor")
    else if ltb_ℤ (pos max_tax) c.tax_minor
    then err (invalid "tax_minor")
    else if ltb max_items (length c.items)
    then err (invalid "items")
    else do
      items ← validate_items c.items
      ok (record { currency = cur; tax_minor = c.tax_minor; items = items })

-- ValidateUUID: nil names nothing.
unfoldable pub validate_uuid : ℕ → Result (Unit {0})
validate_uuid id = if id == 0 then err not_found else ok tt
