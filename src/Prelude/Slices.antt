-- ===== src/Prelude/Slices.antt =====
-- The first rows of a list, the rows after them, and a row by its index.
use mathlib.Core.Logic.{inl, inr}
use tenant_api_platform.Prelude.Lists.{length, take, select, All}
use tenant_api_platform.Prelude.Tests.{Bool-cases}
use Prim.Native.Nat.{ℕ, zero, suc, ◌-◌, ◌≤◌, ◌<◌}
use mathlib.Core.Path.{◌≡◌, refl, sym, ap}
use mathlib.Core.Bool.{Bool, true, false, ◌&&◌}
use mathlib.Core.Option.{Option, some, none}
use mathlib.Core.List.{List, [], ◌∷◌, ◌++◌}
use native.Mathlib.Omega.{arith}

module _ {ℓ} {A : Type ℓ} where
  abbrev pub get_elem? : ℕ → List A → Option A
  get_elem? i [] = none
  get_elem? zero (x ∷ xs) = some x
  get_elem? (suc i) (x ∷ xs) = get_elem? i xs

  abbrev pub drop : ℕ → List A → List A
  drop zero xs = xs
  drop (suc n) [] = []
  drop (suc n) (x ∷ xs) = drop n xs

  pub take-drop : (n : ℕ) (xs : List A) → take n xs ++ drop n xs ≡ xs
  take-drop zero xs = refl
  take-drop (suc n) [] = refl
  take-drop (suc n) (x ∷ xs) = ap (λ ys. x ∷ ys) (take-drop n xs)

  pub length-drop : (n : ℕ) (xs : List A) → length (drop n xs) ≡ length xs - n
  length-drop zero xs = omega arith
  length-drop (suc n) [] = omega arith
  length-drop (suc n) (x ∷ xs) = omega (arith, length-drop n xs)

  pub take_short : (n : ℕ) (xs : List A) → length xs ≤ n → take n xs ≡ xs
  take_short zero [] h = refl
  take_short zero (x ∷ xs) h = absurd (omega arith)
  take_short (suc n) [] h = refl
  take_short (suc n) (x ∷ xs) h = ap (λ ys. x ∷ ys) (take_short n xs (omega arith))

  pub take-take : (n : ℕ) (xs : List A) → take n (take (suc n) xs) ≡ take n xs
  take-take zero xs = refl
  take-take (suc n) [] = refl
  take-take (suc n) (x ∷ xs) = ap (λ ys. x ∷ ys) (take-take n xs)

  pub length-take_long : (n : ℕ) (xs : List A) → n ≤ length xs → length (take n xs) ≡ n
  length-take_long zero xs h = refl
  length-take_long (suc n) [] h = absurd (omega arith)
  length-take_long (suc n) (x ∷ xs) h = omega (arith, length-take_long n xs (omega arith))

  pub get_elem?-take : (n : ℕ) (xs : List A) → get_elem? n (take (suc (suc n)) xs) ≡ get_elem? n xs
  get_elem?-take n [] = refl
  get_elem?-take zero (x ∷ xs) = refl
  get_elem?-take (suc n) (x ∷ xs) = get_elem?-take n xs

  pub get_elem?-some : (n : ℕ) (xs : List A) → n < length xs → (x : A) × (get_elem? n xs ≡ some x)
  get_elem?-some n [] h = absurd (omega arith)
  get_elem?-some zero (x ∷ xs) h = (x, refl)
  get_elem?-some (suc n) (x ∷ xs) h = get_elem?-some n xs (omega arith)

  pub All-get_elem? {κ} :
      (P : A → Type κ) (n : ℕ) (xs : List A) (x : A) → All P xs → get_elem? n xs ≡ some x → P x
  All-get_elem? P n [] x h e = cc
  All-get_elem? P zero (y ∷ ys) x (h, hs) e = let same : y ≡ x = cc in rw (sym same) h
  All-get_elem? P (suc n) (y ∷ ys) x (h, hs) e = All-get_elem? P n ys x hs e

  pub select-narrow :
      (p q : A → Bool)
      → ((x : A) → p x ≡ true → q x ≡ true)
      → (xs : List A) → select p (select q xs) ≡ select p xs
  select-narrow p q sub [] = refl
  select-narrow p q sub (x ∷ xs) = elim (Bool-cases (q x)) [
    | inl e ↦ rw (e, select-narrow p q sub xs) refl
    | inr e ↦ elim (Bool-cases (p x)) [
      | inl k ↦ cc (sub x k, e)
      | inr k ↦ rw (e, k) (select-narrow p q sub xs)
    ]
  ]

  pub select-both :
      (p q : A → Bool) (xs : List A) → select (λ x. p x && q x) xs ≡ select q (select p xs)
  select-both p q [] = refl
  select-both p q (x ∷ xs) = ground (arith, select-both p q xs)

  pub select_none_of : (p : A → Bool) (xs : List A) → All (λ x. p x ≡ false) xs → select p xs ≡ []
  select_none_of p [] h = refl
  select_none_of p (x ∷ xs) (h, hs) = rw h (select_none_of p xs hs)

  pub select-append :
      (p : A → Bool) (xs ys : List A) → select p (xs ++ ys) ≡ select p xs ++ select p ys
  select-append p [] ys = refl
  select-append p (x ∷ xs) ys = ground (arith, select-append p xs ys)

  pub select_every : (xs : List A) → select (λ x. true) xs ≡ xs
  select_every [] = refl
  select_every (x ∷ xs) = ap (λ ys. x ∷ ys) (select_every xs)

  pub select_held : (p : A → Bool) (xs : List A) → All (λ x. p x ≡ true) (select p xs)
  select_held p [] = tt
  select_held p (x ∷ xs) = elim (Bool-cases (p x)) [
    | inl e ↦ rw e (e, select_held p xs)
    | inr e ↦ rw e (select_held p xs)
  ]
