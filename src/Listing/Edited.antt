-- ===== src/Listing/Edited.antt =====
-- The positions that a client meets while rows are edited between its requests.
use mathlib.Core.Option
use mathlib.Core.List.{Perm}
use tenant_api_platform.Prelude.{
  ℕ, zero, suc, ◌+◌, ◌-◌, ◌≤◌, ◌<◌, Bool, true, ◌&&◌, Result, ok, err, Result-cases, Option, none,
  some, Option-cases, List, [], ◌∷◌, ◌++◌, map, ◌≡◌, refl, sym, ap, ◌∙◌, arith, ltb, select, length,
  take, get_elem?, select-append, select_every, All, All-imp, Bool-cases, inl, inr,
}
use tenant_api_platform.Cursor.{Position}
use tenant_api_platform.Listing.{
  newer, below, place, newest_first, Page, query, cut_page, page_after, and_then, follow,
}
use tenant_api_platform.Listing.Order.{All-select, Apart, Apart-select, Descending}
use tenant_api_platform.Listing.Walk.{follow_whole}

-- A position stands for itself.
abbrev pub itself : Position → Position
itself p = p

module _ {ℓ κ} {A : Type ℓ} (key : A → Position) (P : Position → Type κ) where
  All-mapped : (xs : List A) → All (λ x. P (key x)) xs → All P (map key xs)
  All-mapped [] h = tt
  All-mapped (x ∷ xs) (h, hs) = (h, All-mapped xs hs)

module _ {ℓ} {A : Type ℓ} (key : A → Position) where
  map-place : (x : A) (ys : List A) → map key (place key x ys) ≡ place itself (key x) (map key ys)
  map-place x [] = refl
  map-place x (y ∷ ys) = elim (Bool-cases (newer (key x) (key y))) [
    | inl e ↦ rw e refl
    | inr e ↦ rw e (ap (λ zs. key y ∷ zs) (map-place x ys))
  ]

  map-newest_first :
      (xs : List A) → map key (newest_first key xs) ≡ newest_first itself (map key xs)
  map-newest_first [] = refl
  map-newest_first (x ∷ xs) =
      map-place x (newest_first key xs) ∙ ap (place itself (key x)) (map-newest_first xs)

  map-take : (n : ℕ) (xs : List A) → map key (take n xs) ≡ take n (map key xs)
  map-take zero xs = refl
  map-take (suc n) [] = refl
  map-take (suc n) (x ∷ xs) = ap (λ ys. key x ∷ ys) (map-take n xs)

  length-map : (xs : List A) → length (map key xs) ≡ length xs
  length-map [] = refl
  length-map (x ∷ xs) = omega (arith, length-map xs)

  length-select : (p : A → Bool) (xs : List A) → length (select p xs) ≤ length xs
  length-select p [] = omega arith
  length-select p (x ∷ xs) = ground (arith, length-select p xs)

  map-append : (xs ys : List A) → map key (xs ++ ys) ≡ map key xs ++ map key ys
  map-append [] ys = refl
  map-append (x ∷ xs) ys = ap (λ zs. key x ∷ zs) (map-append xs ys)

  Apart-map : (xs : List A) → Apart key xs → Apart itself (map key xs)
  Apart-map [] h = tt
  Apart-map (x ∷ xs) (h, hs) = (All-mapped key _ xs h, Apart-map xs hs)

  map-select :
      (wants : A → Bool) (after : Option Position) (xs : List A)
      → map key (select (λ x. wants x && below after (key x)) xs)
        ≡ select (λ p. true && below after p) (map key (select wants xs))
  map-select wants after [] = refl
  map-select wants after (x ∷ xs) = elim (Bool-cases (wants x)) [
    | inr e ↦ rw e (map-select wants after xs)
    | inl e ↦ elim (Bool-cases (below after (key x))) [
      | inl k ↦ rw (e, k) (ap (λ ys. key x ∷ ys) (map-select wants after xs))
      | inr k ↦ rw (e, k) (map-select wants after xs)
    ]
  ]

  next-map :
      (i : ℕ) (xs : List A)
      → Option.map key (get_elem? i xs) ≡ Option.map itself (get_elem? i (map key xs))
  next-map i [] = refl
  next-map zero (x ∷ xs) = refl
  next-map (suc i) (x ∷ xs) = next-map i xs

  -- A page as its positions.
  abbrev keys_of : Page A → Page Position
  keys_of page = record { rows = map key page.rows; next = page.next }

  cut_page-keys :
      (limit : ℕ) (out : List A)
      → keys_of (cut_page key limit out) ≡ cut_page itself limit (map key out)
  cut_page-keys limit out = elim (Bool-cases (ltb limit (length out))) [
    | inl e ↦ rw (length-map out, e, map-take limit out, next-map (limit - 1) out) refl
    | inr e ↦ rw (length-map out, e) refl
  ]

  page_after-keys :
      (wants : A → Bool) (limit : ℕ) (rows : List A) (after : Option Position)
      → keys_of (page_after key wants limit rows after)
        ≡ page_after itself (λ p. true) limit (map key (select wants rows)) after
  page_after-keys wants limit rows after =
      cut_page-keys limit (query key wants after (limit + 1) rows)
      ∙ ap (cut_page itself limit) (
          map-take (limit + 1)
            (newest_first key (select (λ x. wants x && below after (key x)) rows))
          ∙ ap (take (limit + 1)) (
              map-newest_first (select (λ x. wants x && below after (key x)) rows)
              ∙ ap (newest_first itself) (map-select wants after rows)))

  abbrev keyed : Result (Page A) → Result (Page Position)
  keyed (ok page) = ok (keys_of page)
  keyed (err e) = err e

  map-and_then :
      (rows : List A) (rest : Option (List A))
      → Option.map (map key) (and_then rows rest)
        ≡ and_then (map key rows) (Option.map (map key) rest)
  map-and_then rows none = refl
  map-and_then rows (some more) = ap some (map-append rows more)

  follow-keys :
      (get : ℕ → Option Position → Result (Page A)) (fuel i : ℕ) (after : Option Position)
      → Option.map (map key) (follow get fuel i after)
        ≡ follow (λ i after. keyed (get i after)) fuel i after
  follow-keys get zero i after = refl
  follow-keys get (suc fuel) i after = elim (Result-cases (get i after)) [
    | inr (e, k) ↦ rw k refl
    | inl (page, k) ↦ elim (Option-cases page.next) [
      | inl n ↦ rw (k, n) refl
      | inr (p, n) ↦
          rw (k, n)
            (map-and_then page.rows (follow get fuel (suc i) (some p))
              ∙ ap (and_then (map key page.rows)) (follow-keys get fuel (suc i) (some p)))
    ]
  ]

  found_rows :
      (r : Option (List A)) (all : List Position)
      → Option.map (map key) r ≡ some all
      → (rs : List A) × (r ≡ some rs) × (map key rs ≡ all)
  found_rows none all h = cc
  found_rows (some rs) all h = (rs, refl, cc)

  module _ (wants : A → Bool) (edit : A → A) (stays : (x : A) → key (edit x) ≡ key x)
      (kept : (x : A) → wants (edit x) ≡ wants x) where
    keys_of_edited :
        (xs : List A) → map key (select wants (map edit xs)) ≡ map key (select wants xs)
    keys_of_edited [] = refl
    keys_of_edited (x ∷ xs) = elim (Bool-cases (wants x)) [
      | inl e ↦ rw (kept x, e, stays x) (ap (λ ps. key x ∷ ps) (keys_of_edited xs))
      | inr e ↦ rw (kept x, e) (keys_of_edited xs)
    ]

    keys_with_later :
        (xs ys : List A)
        → map key (select wants (map edit xs ++ ys))
          ≡ map key (select wants xs) ++ map key (select wants ys)
    keys_with_later xs ys =
        ap (map key) (select-append wants (map edit xs) ys)
        ∙ (map-append (select wants (map edit xs)) (select wants ys)
            ∙ ap (λ ps. ps ++ map key (select wants ys)) (keys_of_edited xs))

  module _ (wants : A → Bool) (rows : List A) (later : ℕ → List A)
      (fresh : All (λ x. (i : ℕ) → All (λ y. newer (key y) (key x) ≡ true) (later i)) rows) where
    fresh_keys :
        All
          (λ p. (i : ℕ) → All (λ q. newer q p ≡ true) (map key (select wants (later i))))
          (map key (select wants rows))
    fresh_keys = All-mapped key _ (select wants rows) (
        All-imp _
          (λ x h i. All-mapped key _ (select wants (later i)) (All-select _ wants (later i) (h i)))
          (select wants rows) (All-select _ wants rows fresh))

  module _ (wants : A → Bool) (m : ℕ) (rows : List A) (apart : Apart key rows) (edit : ℕ → A → A)
      (stays : (i : ℕ) (x : A) → key (edit i x) ≡ key x)
      (kept : (i : ℕ) (x : A) → wants (edit i x) ≡ wants x) (later : ℕ → List A)
      (get : ℕ → Option Position → Result (Page A))
      (served : (i : ℕ) (after : Option Position)
        → get i after
          ≡ ok (page_after key wants (suc m) (map (edit i) rows ++ later i) after)) where
    served_keys :
        (i : ℕ) (after : Option Position)
        → keyed (get i after)
          ≡ ok (
              page_after itself
                (λ p. true)
                (suc m)
                (map key (select wants rows) ++ map key (select wants (later i)))
                after)
    served_keys i after =
        ap keyed (served i after)
        ∙ ap ok (
            page_after-keys wants (suc m) (map (edit i) rows ++ later i) after
            ∙ ap (λ ps. page_after itself (λ p. true) (suc m) ps after)
                (keys_with_later wants (edit i) (stays i) (kept i) rows (later i)))

    -- A client that follows the announced positions meets each one once while rows are edited.
    pub follow_positions :
        All (λ x. (i : ℕ) → All (λ y. newer (key y) (key x) ≡ true) (later i)) rows
        → (fuel : ℕ) → later 0 ≡ []
        → length rows < fuel
        → (all : List A) × (follow get fuel 0 none ≡ some all)
          × Perm (map key all) (map key (select wants rows))
          × Descending itself (map key all)
    follow_positions fresh fuel now h =
        let (ps, e, perm, down) =
          follow_whole itself (λ p. true) m (map key (select wants rows))
            (Apart-map (select wants rows) (Apart-select key wants rows apart))
            (λ i. map key (select wants (later i))) (λ i after. keyed (get i after)) served_keys
            (fresh_keys wants rows later fresh) fuel (rw now refl)
            (omega (arith, h, length-map (select wants rows), length-select wants rows)) in
        let (all, met, same) =
          found_rows (follow get fuel 0 none) ps (follow-keys get fuel 0 none ∙ e) in
        (all, met, rw (same, sym (select_every (map key (select wants rows)))) perm, rw same down)
