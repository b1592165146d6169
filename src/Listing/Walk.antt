-- ===== src/Listing/Walk.antt =====
-- A client that follows the announced positions meets every row once, whatever newer rows are
-- inserted between its requests.
use mathlib.Core.List.{append-nil}
use mathlib.Core.List.{Perm}
use tenant_api_platform.Prelude.{
  ℕ, zero, suc, ◌+◌, ◌-◌, ◌≤◌, ◌<◌, Bool, true, false, ◌&&◌, Option, none, some, Result, ok, List,
  [], ◌∷◌, ◌++◌, ◌≡◌, refl, sym, ap, ◌∙◌, arith, ltb, select, select-All, length, take, All,
  All-imp, get_elem?, drop, take-drop, length-drop, take_short, take-take, length-take_long,
  get_elem?-take, get_elem?-some, All-get_elem?, select-narrow, select-both, select_none_of,
  select-append, select_every, select_held, Bool-cases, inl, inr,
}
use tenant_api_platform.Cursor.{Position}
use tenant_api_platform.Listing.{newer, below, newest_first, Page, cut_page, page_after, follow}
use tenant_api_platform.Listing.Order.{
  newer_irrefl, newer_asym, below_trans, All-select, All-newest_first, Apart, Apart-select,
  Descending, Descending-select, newest_first-Descending, newest_first-Perm, newest_first-select,
  length-newest_first,
}

-- A page size that is not 0 is a successor.
pub successor : (n : ℕ) → 0 < n → (m : ℕ) × (n ≡ suc m)
successor zero h = absurd (omega arith)
successor (suc m) h = (m, refl)

module _ {ℓ} {A : Type ℓ} (key : A → Position) where
  -- What lies below the last row of a page is what the page leaves.
  below_last :
      (n : ℕ) (xs : List A) (x : A)
      → Descending key xs
      → get_elem? n xs ≡ some x
      → select (λ y. below (some (key x)) (key y)) xs ≡ drop (suc n) xs
  below_last n [] x d e = refl
  below_last zero (y ∷ ys) x (d, ds) e =
      let same : y ≡ x = cc in
      let older : All (λ z. newer (key x) (key z) ≡ true) ys = rw same at d in
      rw (same, newer_irrefl (key x)) (select-All (λ z. newer (key x) (key z)) ys older)
  below_last (suc n) (y ∷ ys) x (d, ds) e =
      rw (newer_asym (key y) (key x) (All-get_elem? _ n ys x d e)) (below_last n ys x ds e)

  module _ (wants : A → Bool) (m : ℕ) (rows : List A) (apart : Apart key rows) where
    -- The whole listing, and what of it comes after a position.
    abbrev pub whole : List A
    whole = newest_first key (select wants rows)

    abbrev rest : Option Position → List A
    rest after = select (λ x. below after (key x)) whole

    whole-Descending : Descending key whole
    whole-Descending =
        newest_first-Descending key (select wants rows) (Apart-select key wants rows apart)

    rest_whole : rest none ≡ whole
    rest_whole = select_every whole

    -- Newer rows are not after the position.
    ordered :
        (after : Option Position) (ys : List A)
        → All (λ y. below after (key y) ≡ false) ys
        → newest_first key (select (λ x. wants x && below after (key x)) (rows ++ ys)) ≡ rest after
    ordered after ys old =
        let past : All (λ y. (wants y && below after (key y)) ≡ false) ys =
          All-imp _ (λ y h. ground (arith, h)) ys old in
        ap (newest_first key) (
          select-append (λ x. wants x && below after (key x)) rows ys
          ∙ ap (λ zs. select (λ x. wants x && below after (key x)) rows ++ zs)
              (select_none_of _ ys past)
          ∙ append-nil (select (λ x. wants x && below after (key x)) rows)
          ∙ select-both wants (λ x. below after (key x)) rows)
        ∙ newest_first-select key (λ x. below after (key x)) (select wants rows)
            (Apart-select key wants rows apart)

    rest_of :
        (after : Option Position) (x : A) (n : ℕ)
        → get_elem? n (rest after) ≡ some x
        → rest (some (key x)) ≡ drop (suc n) (rest after)
    rest_of after x n e =
        let held : below after (key x) ≡ true =
          All-get_elem? _ n (rest after) x (select_held (λ y. below after (key y)) whole) e in
        sym (
          select-narrow (λ y. below (some (key x)) (key y)) (λ y. below after (key y))
            (λ y h. below_trans after (key x) (key y) held h) whole)
        ∙ below_last n (rest after) x
            (Descending-select key (λ y. below after (key y)) whole whole-Descending) e

    cut_short :
        (after : Option Position)
        → length (rest after) ≤ suc m
        → cut_page key (suc m) (take (suc m + 1) (rest after))
          ≡ record { rows = rest after; next = none }
    cut_short after h =
        let small : ltb (suc m) (length (rest after)) ≡ false = ground (arith, h) in
        rw (take_short (suc m + 1) (rest after) (omega (arith, h)), small) refl

    cut_long :
        (after : Option Position) (x : A)
        → suc m < length (rest after)
        → get_elem? m (rest after) ≡ some x
        → cut_page key (suc m) (take (suc m + 1) (rest after))
          ≡ record { rows = take (suc m) (rest after); next = some (key x) }
    cut_long after x h e =
        let n : suc m + 1 ≡ suc (suc m) = omega arith in
        let i : suc m - 1 ≡ m = omega arith in
        let full : ltb (suc m) (suc (suc m)) ≡ true = ground arith in
        rw
          (
            n,
            length-take_long (suc (suc m)) (rest after) h,
            full,
            i,
            take-take (suc m) (rest after),
            get_elem?-take m (rest after),
            e,
          )
          refl

    module _ (later : ℕ → List A) (get : ℕ → Option Position → Result (Page A))
        (served : (i : ℕ) (after : Option Position)
          → get i after ≡ ok (page_after key wants (suc m) (rows ++ later i) after)) where
      page_now :
          (i : ℕ) (after : Option Position)
          → All (λ y. below after (key y) ≡ false) (later i)
          → get i after ≡ ok (cut_page key (suc m) (take (suc m + 1) (rest after)))
      page_now i after old =
          served i after
          ∙ ap (λ r. ok (cut_page key (suc m) (take (suc m + 1) r))) (ordered after (later i) old)

      follow_step :
          (fuel i : ℕ) (after : Option Position)
          → All (λ y. below after (key y) ≡ false) (later i)
          → length (rest after) < suc fuel
          → ((x : A)
              → get_elem? m (rest after) ≡ some x
              → length (rest (some (key x))) < fuel
              → follow get fuel (suc i) (some (key x)) ≡ some (rest (some (key x))))
          → follow get (suc fuel) i after ≡ some (rest after)
      follow_step fuel i after old h go = elim (Bool-cases (ltb (suc m) (length (rest after)))) [
        | inr e ↦ rw (page_now i after old, cut_short after (ground (arith, e))) refl
        | inl e ↦
            let more : suc m < length (rest after) = ground (arith, e) in
            let (x, at_m) = get_elem?-some m (rest after) (omega (arith, more)) in
            let left : rest (some (key x)) ≡ drop (suc m) (rest after) = rest_of after x m at_m in
            let fewer : length (rest (some (key x))) < fuel =
              rw left (omega (arith, h, more, length-drop (suc m) (rest after))) in
            rw (page_now i after old, cut_long after x more at_m, go x at_m fewer, left)
              (ap some (take-drop (suc m) (rest after)))
      ]

      module _
          (fresh : All
            (λ x. (i : ℕ) → All (λ y. newer (key y) (key x) ≡ true) (later i))
            rows) where
        outside :
            (after : Option Position) (x : A) (i : ℕ)
            → get_elem? m (rest after) ≡ some x
            → All (λ y. below (some (key x)) (key y) ≡ false) (later i)
        outside after x i e =
            let above =
              All-get_elem? (λ x. (i : ℕ) → All (λ y. newer (key y) (key x) ≡ true) (later i)) m
                (rest after) x
                (All-select _ _ whole
                  (All-newest_first _ key (select wants rows) (All-select _ wants rows fresh)))
                e in
            All-imp _ (λ y h. newer_asym (key y) (key x) h) (later i) (above i)

        follow_after :
            (fuel i : ℕ) (after : Option Position)
            → ((i : ℕ) → All (λ y. below after (key y) ≡ false) (later i))
            → length (rest after) < fuel
            → follow get fuel i after ≡ some (rest after)
        follow_after zero i after old h = absurd (omega arith)
        follow_after (suc fuel) i after old h =
            follow_step fuel i after (old i) h
              (λ x e k. follow_after fuel (suc i) (some (key x)) (λ j. outside after x j e) k)

        from_start :
            (fuel : ℕ) → later 0 ≡ [] → length whole < fuel → follow get fuel 0 none ≡ some whole
        from_start zero now h = absurd (omega arith)
        from_start (suc fuel) now h =
            follow_step fuel 0 none (rw now tt) (rw rest_whole h)
              (λ x e k. follow_after fuel 1 (some (key x)) (λ j. outside none x j e) k)
            ∙ ap some rest_whole

        -- With more requests than rows, the client has the whole listing.
        pub follow_whole :
            (fuel : ℕ)
            → later 0 ≡ []
            → length rows < fuel
            → (all : List A) × (follow get fuel 0 none ≡ some all)
              × Perm all (select wants rows)
              × Descending key all
        follow_whole fuel now h = (
          whole,
          from_start fuel now (omega (arith, h, length-newest_first key wants rows)),
          newest_first-Perm key (select wants rows),
          whole-Descending,
        )
