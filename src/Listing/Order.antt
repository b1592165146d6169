-- ===== src/Listing/Order.antt =====
-- The order of a listing is strict, and a condition on the rows commutes with it.
use mathlib.Core.List.{Perm}
use mathlib.Core.List.Perm
use tenant_api_platform.Prelude.{
  suc, ◌≤◌, length, Bool, true, false, Option, none, some, List, [], ◌∷◌, ◌≡◌, refl, sym, ◌∙◌,
  arith, ◌==◌, if◌then◌else◌, select, All, All-imp, Bool-cases, inl, inr,
}
use tenant_api_platform.Cursor.{Position}
use tenant_api_platform.Listing.{newer, below, place, newest_first}

pub newer_trans : (p q r : Position) → newer p q ≡ true → newer q r ≡ true → newer p r ≡ true
newer_trans p q r h k = ground arith

pub newer_irrefl : (p : Position) → newer p p ≡ false
newer_irrefl p = ground arith

pub newer_asym : (p q : Position) → newer p q ≡ true → newer q p ≡ false
newer_asym p q h = ground arith

newer_total : (p q : Position) → (q.id == p.id) ≡ false → newer p q ≡ false → newer q p ≡ true
newer_total p q h k = ground arith

pub below_trans :
    (after : Option Position) (p q : Position)
    → below after p ≡ true
    → newer p q ≡ true
    → below after q ≡ true
below_trans none p q h k = refl
below_trans (some a) p q h k = newer_trans a p q h k

module _ {ℓ κ} {A : Type ℓ} (P : A → Type κ) where
  pub All-select : (p : A → Bool) (xs : List A) → All P xs → All P (select p xs)
  All-select p [] h = tt
  All-select p (x ∷ xs) (h, hs) = elim (Bool-cases (p x)) [
    | inl e ↦ rw e (h, All-select p xs hs)
    | inr e ↦ rw e (All-select p xs hs)
  ]

  module _ (key : A → Position) where
    All-place : (x : A) (ys : List A) → P x → All P ys → All P (place key x ys)
    All-place x [] h hs = (h, tt)
    All-place x (y ∷ ys) h (k, ks) = elim (Bool-cases (newer (key x) (key y))) [
      | inl e ↦ rw e (h, (k, ks))
      | inr e ↦ rw e (k, All-place x ys h ks)
    ]

    pub All-newest_first : (xs : List A) → All P xs → All P (newest_first key xs)
    All-newest_first [] h = tt
    All-newest_first (x ∷ xs) (h, hs) = All-place x (newest_first key xs) h (All-newest_first xs hs)

module _ {ℓ} {A : Type ℓ} (key : A → Position) where
  -- No two rows have one id.
  abbrev pub Apart : List A → Type 0
  Apart [] = Unit
  Apart (x ∷ xs) = All (λ y. ((key y).id == (key x).id) ≡ false) xs × Apart xs

  -- Each row is newer than the rows after it.
  abbrev pub Descending : List A → Type 0
  Descending [] = Unit
  Descending (x ∷ xs) = All (λ y. newer (key x) (key y) ≡ true) xs × Descending xs

  pub Apart-select : (p : A → Bool) (xs : List A) → Apart xs → Apart (select p xs)
  Apart-select p [] h = tt
  Apart-select p (x ∷ xs) (h, hs) = elim (Bool-cases (p x)) [
    | inl e ↦ rw e (All-select _ p xs h, Apart-select p xs hs)
    | inr e ↦ rw e (Apart-select p xs hs)
  ]

  pub Descending-select : (p : A → Bool) (xs : List A) → Descending xs → Descending (select p xs)
  Descending-select p [] h = tt
  Descending-select p (x ∷ xs) (h, hs) = elim (Bool-cases (p x)) [
    | inl e ↦ rw e (All-select _ p xs h, Descending-select p xs hs)
    | inr e ↦ rw e (Descending-select p xs hs)
  ]

  older_still :
      (x y : A) (ys : List A)
      → newer (key x) (key y) ≡ true
      → All (λ z. newer (key y) (key z) ≡ true) ys
      → All (λ z. newer (key x) (key z) ≡ true) ys
  older_still x y ys h hs = All-imp _ (λ z k. newer_trans (key x) (key y) (key z) h k) ys hs

  place-Descending :
      (x : A) (ys : List A)
      → All (λ y. ((key y).id == (key x).id) ≡ false) ys
      → Descending ys
      → Descending (place key x ys)
  place-Descending x [] a d = (tt, tt)
  place-Descending x (y ∷ ys) (a, apart) (d, ds) = elim (Bool-cases (newer (key x) (key y))) [
    | inl e ↦ rw e ((e, older_still x y ys e d), (d, ds))
    | inr e ↦
        rw e
          (All-place _ key x ys (newer_total (key x) (key y) a e) d, place-Descending x ys apart ds)
  ]

  pub newest_first-Descending : (xs : List A) → Apart xs → Descending (newest_first key xs)
  newest_first-Descending [] h = tt
  newest_first-Descending (x ∷ xs) (h, hs) =
      place-Descending x (newest_first key xs) (All-newest_first _ key xs h)
        (newest_first-Descending xs hs)

  place-Perm : (x : A) (ys : List A) → Perm (place key x ys) (x ∷ ys)
  place-Perm x [] = Perm.refl (x ∷ [])
  place-Perm x (y ∷ ys) = elim (Bool-cases (newer (key x) (key y))) [
    | inl e ↦ rw e (Perm.refl (x ∷ y ∷ ys))
    | inr e ↦ rw e (Perm.trans (Perm.cons y (place-Perm x ys)) (Perm.swap x y ys))
  ]

  pub newest_first-Perm : (xs : List A) → Perm (newest_first key xs) xs
  newest_first-Perm [] = Perm.refl []
  newest_first-Perm (x ∷ xs) =
      Perm.trans (place-Perm x (newest_first key xs)) (Perm.cons x (newest_first-Perm xs))

  place_oldest :
      (x : A) (ys : List A) → All (λ z. newer (key x) (key z) ≡ true) ys → place key x ys ≡ x ∷ ys
  place_oldest x [] h = refl
  place_oldest x (y ∷ ys) (h, hs) = rw h refl

  select-place :
      (p : A → Bool) (x : A) (ys : List A)
      → Descending ys
      → select p (place key x ys) ≡ (if p x then place key x (select p ys) else select p ys)
  select-place p x [] d = refl
  select-place p x (y ∷ ys) (d, ds) = elim (Bool-cases (newer (key x) (key y))) [
    | inl e ↦
        rw
          (
            e,
            place_oldest x (select p (y ∷ ys))
                (All-select _ p (y ∷ ys) (e, older_still x y ys e d)),
          )
          refl
    | inr e ↦ elim (Bool-cases (p x)) [
      | inl a ↦ elim (Bool-cases (p y)) [
        | inl b ↦ rw (e, a, b, select-place p x ys ds, a, e) refl
        | inr b ↦ rw (e, a, b, select-place p x ys ds, a) refl
      ]
      | inr a ↦ rw (e, a, select-place p x ys ds, a) refl
    ]
  ]

  pub newest_first-select :
      (p : A → Bool) (xs : List A)
      → Apart xs
      → newest_first key (select p xs) ≡ select p (newest_first key xs)
  newest_first-select p [] h = refl
  newest_first-select p (x ∷ xs) (h, hs) = sym (
      select-place p x (newest_first key xs) (newest_first-Descending xs hs)
      ∙ rw (sym (newest_first-select p xs hs))
          (elim (Bool-cases (p x)) [ inl e ↦ rw e refl | inr e ↦ rw e refl ]))

  length-place : (x : A) (ys : List A) → length (place key x ys) ≡ suc (length ys)
  length-place x [] = omega arith
  length-place x (y ∷ ys) = ground (arith, length-place x ys)

  -- A listing has no more rows than the table.
  pub length-newest_first :
      (p : A → Bool) (xs : List A) → length (newest_first key (select p xs)) ≤ length xs
  length-newest_first p [] = omega arith
  length-newest_first p (x ∷ xs) =
      ground (arith, length-place x (newest_first key (select p xs)), length-newest_first p xs)
