-- ===== src/Listing.antt =====
-- The listings by keyset of internal/project/store.go, internal/invoice/store.go and
-- internal/audit/reader.go: ORDER BY the time and the id, both DESC, the rows after a position, and
-- one row more than the page to tell whether another page follows.
pub mod Order
pub mod Walk
pub mod Edited
pub mod Tests
use mathlib.Core.Option
use tenant_api_platform.Prelude.{
  ℕ, zero, suc, ◌+◌, ◌-◌, Bool, true, false, ◌&&◌, ◌||◌, Result, ok, err, Option, none, some, List,
  [], ◌∷◌, ◌++◌, ltb, ◌==◌, if◌then◌else◌, select, length, take, get_elem?,
}
use tenant_api_platform.Cursor.{Position}

-- A row comparison: (p.time, p.id) > (q.time, q.id).
abbrev pub newer : Position → Position → Bool
newer p q = ltb q.time p.time || p.time == q.time && ltb q.id p.id

-- The condition on the position, which a first page does not have.
abbrev pub below : Option Position → Position → Bool
below none p = true
below (some q) p = newer q p

-- One page, and the position of its last row if another follows.
pub record Page {ℓ} (A : Type ℓ) : Type ℓ where
  pub rows : List A
  pub next : Option Position

module _ {ℓ} {A : Type ℓ} (key : A → Position) where
  abbrev pub place : A → List A → List A
  place x [] = x ∷ []
  place x (y ∷ ys) = let rest = place x ys in if newer (key x) (key y) then x ∷ y ∷ ys else y ∷ rest

  -- ORDER BY the time DESC, the id DESC.
  abbrev pub newest_first : List A → List A
  newest_first [] = []
  newest_first (x ∷ xs) = place x (newest_first xs)

  -- The rows that a query selects, with WHERE, ORDER BY and LIMIT.
  abbrev pub query : (A → Bool) → Option Position → ℕ → List A → List A
  query wants after n rows =
      take n (newest_first (select (λ x. wants x && below after (key x)) rows))

  abbrev pub cut_page : ℕ → List A → Page A
  cut_page limit out =
      if ltb limit (length out)
      then record { rows = take limit out; next = Option.map key (get_elem? (limit - 1) out) }
      else record { rows = out; next = none }

  abbrev pub page_after : (A → Bool) → ℕ → List A → Option Position → Page A
  page_after wants limit rows after = cut_page limit (query wants after (limit + 1) rows)

abbrev pub and_then {ℓ} : {A : Type ℓ} → List A → Option (List A) → Option (List A)
and_then rows rest = Option.map (λ more. rows ++ more) rest

abbrev go_on {ℓ} :
    {A : Type ℓ} → (Option Position → Option (List A)) → Result (Page A) → Option (List A)
go_on rest (err e) = none
go_on rest (ok page) = elim page.next [
  | none ↦ some page.rows
  | some p ↦ and_then page.rows (rest (some p))
]

-- What a client has that asks for the next page as long as one is announced: its requests are
-- numbered, since the table may grow between two of them, and `none` is a failure or too little fuel.
abbrev pub follow {ℓ} :
    {A : Type ℓ}
    → (ℕ → Option Position → Result (Page A))
    → ℕ
    → ℕ
    → Option Position
    → Option (List A)
follow get zero i after = none
follow get (suc fuel) i after = go_on (λ p. follow get fuel (suc i) p) (get i after)

-- The page of what a transaction read, or its error.
abbrev pub cut_result :
    {S A : Type 0} → (A → Position) → ℕ → Result (List A) × S → Result (Page A) × S
cut_result key limit (ok out, s) = (ok (cut_page key limit out), s)
cut_result key limit (err e, s) = (err e, s)
