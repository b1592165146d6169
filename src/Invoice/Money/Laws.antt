-- ===== src/Invoice/Money/Laws.antt =====
-- The checks let through exactly the amounts that fit, and nothing wraps.
use native.Mathlib.Nat.{le-div_iff_mul-le}
use tenant_api_platform.Prelude.{
  ℕ, zero, suc, ◌+◌, ◌-◌, ◌*◌, ◌/◌, ◌≤◌, ◌<◌, false, ok, err, internal, List, [], ◌∷◌, ◌≡◌, ◌↔◌,
  arith, inl, inr, Bool-cases, leb→le, All, leb, ◌==◌, if◌then◌else◌,
}
use tenant_api_platform.Prelude.Int64.{
  ℤ, pos, negsuc, ◌+ℤ◌, ◌*ℤ◌, ◌-ℤ◌, ◌≤ℤ◌, ◌<ℤ◌, max_int64, IsInt64, add64, sub64, mul64, wrap64_lem,
  +ℤ_parts, zero-+ℤ,
}
use tenant_api_platform.Invoice.Money.{line_total, sum_from, sum_totals, invoice_total}

abbrev pub max_amount : ℤ
max_amount = pos max_int64

*ℤ-pos : (q u : ℕ) → pos q *ℤ pos u ≡ pos (q * u)
unfolding ◌*ℤ◌
*ℤ-pos q u = ground arith

mul64-pos : (q u : ℕ) → q * u ≤ max_int64 → mul64 (pos q) (pos u) ≡ pos (q * u)
unfolding mul64
mul64-pos q u h = rw *ℤ-pos (wrap64_lem (pos (q * u)) (ground arith))

-- The division tests the product.
fits_iff : (q u : ℕ) → (q ≤ max_int64 / suc u) ↔ (q * suc u ≤ max_int64)
fits_iff q u = le-div_iff_mul-le (omega arith)

-- On amounts that are not negative.
pub line_total-pos :
    (q u : ℕ)
    → line_total (pos q) (pos u) ≡ (
        if q == 0
        then err internal
        else if leb (q * u) max_int64
        then ok (pos (q * u))
        else err internal)
unfolding line_total
line_total-pos q zero = ground (arith, mul64-pos q 0)
line_total-pos q (suc u) = ground (arith, mul64-pos q (suc u), fits_iff q u)

-- A line's total is computed exactly when the quantity is positive, the price not negative and their
-- product at most the largest int64; and it is then the product.
pub line_total_iff :
    (quantity unit_price total : ℤ)
    → (line_total quantity unit_price ≡ ok total) ↔ (
        (pos 0 <ℤ quantity)
        × (pos 0 ≤ℤ unit_price)
        × (quantity *ℤ unit_price ≤ℤ max_amount)
        × (total ≡ quantity *ℤ unit_price))
line_total_iff (pos q) (pos u) total = ground (arith, line_total-pos q u, *ℤ-pos q u)
line_total_iff (pos q) (negsuc u) total = unfold line_total in ground arith
line_total_iff (negsuc q) (pos u) total = unfold line_total in ground arith
line_total_iff (negsuc q) (negsuc u) total = unfold line_total in ground arith

-- A total is computed exactly when neither amount is negative and their sum fits; and it is then
-- the sum.
pub invoice_total_iff :
    (subtotal tax total : ℤ)
    → IsInt64 tax
    → (invoice_total subtotal tax ≡ ok total) ↔ (
        (pos 0 ≤ℤ subtotal)
        × (pos 0 ≤ℤ tax)
        × (subtotal +ℤ tax ≤ℤ max_amount)
        × (total ≡ subtotal +ℤ tax))
unfolding invoice_total ◌+ℤ◌ ◌-ℤ◌
invoice_total_iff (pos s) (pos t) total ht = ground arith
invoice_total_iff (pos s) (negsuc t) total ht = ground arith
invoice_total_iff (negsuc s) (pos t) total ht = ground arith
invoice_total_iff (negsuc s) (negsuc t) total ht = ground arith

abbrev pub NonNegative : ℤ → Type 0
NonNegative a = pos 0 ≤ℤ a

-- The sum of the whole list, as an integer.
unfoldable pub sum_ℤ : List ℤ → ℤ
sum_ℤ [] = pos 0
sum_ℤ (a ∷ rest) = a +ℤ sum_ℤ rest

pub sum_ℤ-NonNegative : (rest : List ℤ) → All NonNegative rest → NonNegative (sum_ℤ rest)
unfolding sum_ℤ
sum_ℤ-NonNegative [] h = omega arith
sum_ℤ-NonNegative (a ∷ rest) (h, hs) =
    omega (arith, +ℤ_parts a (sum_ℤ rest), sum_ℤ-NonNegative rest hs)

add64-pos : (a n : ℕ) → a + n ≤ max_int64 → add64 (pos a) (pos n) ≡ pos (a + n)
unfolding add64 ◌+ℤ◌
add64-pos a n h = ground arith

sub64-pos : (n : ℕ) → n ≤ max_int64 → sub64 (pos max_int64) (pos n) ≡ pos (max_int64 - n)
unfolding sub64 ◌-ℤ◌
sub64-pos n h = ground arith

-- The next line is added when it is not negative and the sum still fits.
sum_from-pos :
    (a n : ℕ) (rest : List ℤ)
    → a ≤ max_int64
    → n ≤ max_int64
    → sum_from (pos a) (pos n ∷ rest)
      ≡ (if leb (a + n) max_int64 then sum_from (pos (a + n)) rest else err internal)
unfolding sum_from
sum_from-pos a n rest ha hn = ground (arith, sub64-pos n hn, add64-pos a n)

+ℤ-sum_ℤ_cons :
    (a n : ℕ) (rest : List ℤ) → pos a +ℤ sum_ℤ (pos n ∷ rest) ≡ pos (a + n) +ℤ sum_ℤ rest
unfolding ◌+ℤ◌ sum_ℤ
+ℤ-sum_ℤ_cons a n rest = ground arith

gt_of_leb : (a b : ℕ) → leb a b ≡ false → b < a
gt_of_leb a b h = ground arith

-- The sum that has passed the bound does not come back below it.
too_large :
    (a n : ℕ) (rest : List ℤ)
    → leb (a + n) max_int64 ≡ false
    → All NonNegative rest
    → ¬ (pos (a + n) +ℤ sum_ℤ rest ≤ℤ max_amount)
too_large a n rest e h k =
    omega (arith, +ℤ_parts (pos (a + n)) (sum_ℤ rest), sum_ℤ-NonNegative rest h, gt_of_leb _ _ e)

sum_from_iff :
    (a : ℕ) (rest : List ℤ) (sum : ℤ)
    → a ≤ max_int64
    → All IsInt64 rest
    → (sum_from (pos a) rest ≡ ok sum)
      ↔ (All NonNegative rest × (pos a +ℤ sum_ℤ rest ≤ℤ max_amount) × (sum ≡ pos a +ℤ sum_ℤ rest))
sum_from_iff a [] sum ha h = unfold sum_from sum_ℤ ◌+ℤ◌ in ground arith
sum_from_iff a (pos n ∷ rest) sum ha (h, hs) =
    rw (sum_from-pos a n rest ha h.upper, +ℤ-sum_ℤ_cons a n rest)
      (elim (Bool-cases (leb (a + n) max_int64)) [
        | inl e ↦
            let (to, from) = sum_from_iff (a + n) rest sum (leb→le _ _ e) hs in
            rw e (
              λ k. let (all, fits, eq) = to k in ((omega arith, all), fits, eq),
              λ ((_, all), fits, eq). from (all, fits, eq),
            )
        | inr e ↦ rw e (λ k. cc, λ ((_, all), fits, eq). absurd (too_large a n rest e all fits))
      ])
sum_from_iff a (negsuc n ∷ rest) sum ha (h, hs) = unfold sum_from in ground arith

-- The totals of the lines are summed exactly when none is negative and the whole sum fits; and the
-- result is then the sum.
pub sum_totals_iff :
    (line_totals : List ℤ) (sum : ℤ)
    → All IsInt64 line_totals
    → (sum_totals line_totals ≡ ok sum) ↔ (
        All NonNegative line_totals × (sum_ℤ line_totals ≤ℤ max_amount) × (sum ≡ sum_ℤ line_totals))
unfolding sum_totals
sum_totals_iff line_totals sum h =
    rw (← zero-+ℤ (sum_ℤ line_totals)) (sum_from_iff 0 line_totals sum (omega arith) h)
