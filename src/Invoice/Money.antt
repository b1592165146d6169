-- ===== src/Invoice/Money.antt =====
-- internal/invoice/invoice.go: the checked arithmetic on amounts.
--
-- `int` and `int64` are 64-bit: a value is an integer in that range, and the operations wrap.
pub mod Laws
use tenant_api_platform.Prelude.{
  Bool, not, ◌&&◌, Result, ok, err, internal, List, [], ◌∷◌, if◌then◌else◌, ◌||◌,
}
use tenant_api_platform.Prelude.Int64.{
  ℤ, pos, ltb_ℤ, leb_ℤ, eqb_ℤ, max_int64, add64, sub64, mul64, div64,
}

-- The errors of this file wrap no sentinel; the callers turn them into validation errors.
unfoldable pub line_total : ℤ → ℤ → Result ℤ
unfolding mul64 div64
line_total quantity unit_price =
    if leb_ℤ quantity (pos 0)
    then err internal
    else if ltb_ℤ unit_price (pos 0)
    then err internal
    else if not (eqb_ℤ unit_price (pos 0)) && ltb_ℤ (div64 (pos max_int64) unit_price) quantity
    then err internal
    else ok (mul64 quantity unit_price)

-- The loop, with the sum so far.
unfoldable pub sum_from : ℤ → List ℤ → Result ℤ
unfolding add64 sub64
sum_from sum [] = ok sum
sum_from sum (lt ∷ line_totals) =
    let rest = sum_from (add64 sum lt) line_totals in
    if ltb_ℤ lt (pos 0)
    then err internal
    else if ltb_ℤ (sub64 (pos max_int64) lt) sum
    then err internal
    else rest

unfoldable pub sum_totals : List ℤ → Result ℤ
unfolding sum_from
sum_totals line_totals = sum_from (pos 0) line_totals

unfoldable pub invoice_total : ℤ → ℤ → Result ℤ
unfolding add64 sub64
invoice_total subtotal tax =
    if ltb_ℤ subtotal (pos 0) || ltb_ℤ tax (pos 0)
    then err internal
    else if ltb_ℤ (sub64 (pos max_int64) tax) subtotal
    then err internal
    else ok (add64 subtotal tax)
