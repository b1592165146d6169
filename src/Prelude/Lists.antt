-- ===== src/Prelude/Lists.antt =====
-- Lists measured by native numbers, Boolean searches, and predicates over a list.
use Prim.Native.Nat.{ℕ, zero, suc, ◌+◌, ◌≤◌, ◌<◌}
use mathlib.Core.Path.{◌≡◌, refl, sym, ap, subst}
use mathlib.Core.Logic.{inl, inr}
use mathlib.Core.Bool.{Bool, true, false, ◌||◌, ◌&&◌}
use mathlib.Core.List.{Memᴰ, List, [], ◌∷◌, ◌++◌, map}
use mathlib.Core.Option
use mathlib.Core.Option.{Option, none, some}
use native.Mathlib.Omega.{arith}
use tenant_api_platform.Prelude.Tests.{if◌then◌else◌, Bool-cases}

module _ {ℓ} {A : Type ℓ} where
  abbrev pub length : List A → ℕ
  length [] = 0
  length (x ∷ xs) = suc (length xs)

  abbrev pub take : ℕ → List A → List A
  take zero xs = []
  take (suc n) [] = []
  take (suc n) (x ∷ xs) = x ∷ take n xs

  abbrev pub any : (A → Bool) → List A → Bool
  any p [] = false
  any p (x ∷ xs) = p x || any p xs

  -- The rows of a table that a WHERE clause selects, in the table's order.
  abbrev pub select : (A → Bool) → List A → List A
  select p [] = []
  select p (x ∷ xs) = let rest = select p xs in if p x then x ∷ rest else rest

  -- The row that a WHERE clause on a key selects.
  abbrev pub find : (A → Bool) → List A → Option A
  find p [] = none
  find p (x ∷ xs) = let rest = find p xs in if p x then some x else rest

  -- UPDATE: every row that the WHERE clause selects is rewritten.
  abbrev pub update : (A → Bool) → (A → A) → List A → List A
  update p f [] = []
  update p f (x ∷ xs) = (if p x then f x else x) ∷ update p f xs

module _ {ℓ} {A : Type ℓ} where
  pub length-append : (xs ys : List A) → length (xs ++ ys) ≡ length xs + length ys
  length-append [] ys = omega arith
  length-append (x ∷ xs) ys = omega (arith, length-append xs ys)

module _ {ℓ κ} {A : Type ℓ} (P : A → Type κ) where
  abbrev pub All : List A → Type κ
  All [] = Unit
  All (x ∷ xs) = P x × All xs

module _ {ℓ} {A : Type ℓ} (p : A → Bool) (f : A → A) where
  -- A search that no rewritten row meets, and no row left alone, finds nothing.
  pub find-update-none :
      (q : A → Bool)
      → ((x : A) → p x ≡ true → q (f x) ≡ false)
      → ((x : A) → p x ≡ false → q x ≡ false)
      → (xs : List A) → find q (update p f xs) ≡ none
  find-update-none q rewritten kept [] = refl
  find-update-none q rewritten kept (x ∷ xs) = elim (Bool-cases (p x)) [
    | inl e ↦ rw (e, rewritten x e) (find-update-none q rewritten kept xs)
    | inr e ↦ rw (e, kept x e) (find-update-none q rewritten kept xs)
  ]

  -- A key that the rewriting keeps finds the row that it found before, rewritten.
  pub find-update :
      (q : A → Bool)
      → ((x : A) → q (f x) ≡ q x)
      → (xs : List A)
      → find q (update p f xs) ≡ Option.map (λ x. if p x then f x else x) (find q xs)
  find-update q kept [] = refl
  find-update q kept (x ∷ xs) = ground (arith, kept x, find-update q kept xs)

module _ {ℓ} {A : Type ℓ} (p : A → Bool) where
  -- The row found is one that was looked for.
  pub find-eq-some : (xs : List A) (x : A) → find p xs ≡ some x → p x ≡ true
  find-eq-some [] x h = cc
  find-eq-some (y ∷ xs) x h = ground (arith, find-eq-some xs x)

-- A narrower WHERE clause finds nothing where a wider one finds nothing.
pub find-none_of {ℓ} :
    {A : Type ℓ} (p q : A → Bool)
    → ((x : A) → p x ≡ true → q x ≡ true)
    → (xs : List A) → find q xs ≡ none
    → find p xs ≡ none
find-none_of p q sub [] h = refl
find-none_of p q sub (x ∷ xs) h = elim (Bool-cases (p x)) [
  | inl e ↦ absurd (ground (arith, sub x e))
  | inr e ↦ ground (arith, find-none_of p q sub xs)
]

module _ {ℓ κ} {A : Type ℓ} (P : A → Type κ) where
  pub All-append : (xs ys : List A) → All P xs → All P ys → All P (xs ++ ys)
  All-append [] ys h k = k
  All-append (x ∷ xs) ys (h, hs) k = (h, All-append xs ys hs k)

  pub All-update :
      (p : A → Bool) (f : A → A)
      → ((x : A) → P x → p x ≡ true → P (f x))
      → (xs : List A) → All P xs
      → All P (update p f xs)
  All-update p f step [] h = tt
  All-update p f step (x ∷ xs) (h, hs) = elim (Bool-cases (p x)) [
    | inl e ↦ rw e (step x h e, All-update p f step xs hs)
    | inr e ↦ rw e (h, All-update p f step xs hs)
  ]

  pub All-map {μ} :
      {B : Type μ} (f : B → A) → ((b : B) → P (f b)) → (bs : List B) → All P (map f bs)
  All-map f h [] = tt
  All-map f h (b ∷ bs) = (h b, All-map f h bs)

-- A search that misses a list goes on in what is appended to it.
pub find-append {ℓ} :
    {A : Type ℓ} (p : A → Bool) (xs ys : List A) → find p xs ≡ none → find p (xs ++ ys) ≡ find p ys
find-append p [] ys h = refl
find-append p (x ∷ xs) ys h = ground (arith, find-append p xs ys)

-- A selection that no rewritten row is in, before or after, is what it was.
pub select-update {ℓ} :
    {A : Type ℓ} (q p : A → Bool) (f : A → A)
    → ((x : A) → p x ≡ true → (q x ≡ false) × (q (f x) ≡ false))
    → (xs : List A) → select q (update p f xs) ≡ select q xs
select-update q p f apart [] = refl
select-update q p f apart (x ∷ xs) = elim (Bool-cases (p x)) [
  | inl e ↦ let (old, new) = apart x e in rw (e, old, new) (select-update q p f apart xs)
  | inr e ↦ rw e (ap (λ rest. if q x then x ∷ rest else rest) (select-update q p f apart xs))
]

module _ {ℓ} {A : Type ℓ} (p : A → Bool) where
  -- count(*) of the rows that a WHERE clause selects.
  abbrev pub count : List A → ℕ
  count [] = 0
  count (x ∷ xs) = (if p x then 1 else 0) + count xs

  pub count-append : (xs ys : List A) → count (xs ++ ys) ≡ count xs + count ys
  count-append [] ys = omega arith
  count-append (x ∷ xs) ys = omega (arith, count-append xs ys)

  pub count-eq-zero : (xs : List A) → All (λ x. p x ≡ false) xs → count xs ≡ 0
  count-eq-zero [] h = refl
  count-eq-zero (x ∷ xs) (h, hs) = ground (arith, count-eq-zero xs hs)

  -- Rows rewritten to ones that are not selected leave no more of those that are.
  pub count-update :
      (q : A → Bool) (f : A → A)
      → ((x : A) → q x ≡ true → p (f x) ≡ true → p x ≡ true)
      → (xs : List A) → count (update q f xs) ≤ count xs
  count-update q f kept [] = omega arith
  count-update q f kept (x ∷ xs) = ground (arith, kept x, count-update q f kept xs)

  pub count-update-lt :
      (q : A → Bool) (f : A → A)
      → ((x : A) → q x ≡ true → p (f x) ≡ false)
      → (row : A) → p row ≡ true
      → (xs : List A) → find q xs ≡ some row
      → count (update q f xs) < count xs
  count-update-lt q f gone row sel [] h = cc
  count-update-lt q f gone row sel (x ∷ xs) h = elim (Bool-cases (q x)) [
    | inl e ↦
        let same : x ≡ row = ground arith in
        ground (arith, gone x e, same, count-update q f (λ y k r. cc (gone y k, r)) xs)
    | inr e ↦ ground (arith, count-update-lt q f gone row sel xs)
  ]

-- Rewritings that keep the selection keep the count.
pub count-update-eq {ℓ} :
    {A : Type ℓ} (p q : A → Bool) (f : A → A)
    → ((x : A) → p (f x) ≡ p x)
    → (xs : List A) → count p (update q f xs) ≡ count p xs
count-update-eq p q f kept [] = refl
count-update-eq p q f kept (x ∷ xs) = ground (arith, kept x, count-update-eq p q f kept xs)

-- A row that is found stays found when more are appended.
pub find-append-some {ℓ} :
    {A : Type ℓ} (p : A → Bool) (xs ys : List A) (a : A)
    → find p xs ≡ some a
    → find p (xs ++ ys) ≡ some a
find-append-some p [] ys a h = cc
find-append-some p (x ∷ xs) ys a h = ground (arith, find-append-some p xs ys a)

module _ {ℓ κ} {A : Type ℓ} (P : A → Type κ) where
  pub All-imp {μ} : {Q : A → Type μ} → ((a : A) → P a → Q a) → (xs : List A) → All P xs → All Q xs
  All-imp imp [] h = tt
  All-imp imp (x ∷ xs) (h, hs) = (imp x h, All-imp imp xs hs)

  pub All-lookup : {a : A} (xs : List A) → Memᴰ a xs → All P xs → P a
  All-lookup [] m h = elim m [ ]
  All-lookup (x ∷ xs) (Memᴰ.head e) (h, hs) = subst P (sym e) h
  All-lookup (x ∷ xs) (Memᴰ.tail m) (h, hs) = All-lookup xs m hs

  pub All-find : {a : A} (p : A → Bool) (xs : List A) → find p xs ≡ some a → All P xs → P a
  All-find p [] e h = cc
  All-find p (x ∷ xs) e (h, hs) = elim (Bool-cases (p x)) [
    | inl k ↦ subst P (ground arith) h
    | inr k ↦ All-find p xs (ground arith) hs
  ]

-- A rewriting that makes no row selected leaves nothing to be found where nothing was.
pub find-update-still_none {ℓ} :
    {A : Type ℓ} (q p : A → Bool) (f : A → A)
    → ((x : A) → q (f x) ≡ true → q x ≡ true)
    → (xs : List A) → find q xs ≡ none
    → find q (update p f xs) ≡ none
find-update-still_none q p f shrinks [] h = refl
find-update-still_none q p f shrinks (x ∷ xs) h = elim (Bool-cases (q (f x))) [
  | inl e ↦ absurd (ground (arith, shrinks x e))
  | inr e ↦ ground (arith, find-update-still_none q p f shrinks xs)
]

-- The first row of a wider WHERE clause, when a narrower one selects it, is that one's first too.
pub find-narrow {ℓ} :
    {A : Type ℓ} (p q : A → Bool)
    → ((x : A) → p x ≡ true → q x ≡ true)
    → (xs : List A) (a : A) → find q xs ≡ some a
    → p a ≡ true
    → find p xs ≡ some a
find-narrow p q sub [] a h k = cc
find-narrow p q sub (x ∷ xs) a h k = elim (Bool-cases (q x)) [
  | inl e ↦ ground (arith, e)
  | inr e ↦ elim (Bool-cases (p x)) [
    | inl i ↦ cc (sub x i, e)
    | inr i ↦ ground (arith, find-narrow p q sub xs a)
  ]
]

pub select-eq-nil {ℓ} :
    {A : Type ℓ} (p : A → Bool) (xs : List A) → find p xs ≡ none → select p xs ≡ []
select-eq-nil p [] h = refl
select-eq-nil p (x ∷ xs) h = ground (arith, select-eq-nil p xs)

module _ {ℓ} {A : Type ℓ} (p : A → Bool) where
  pub find-none-All : (xs : List A) → find p xs ≡ none → All (λ x. p x ≡ false) xs
  find-none-All [] h = tt
  find-none-All (x ∷ xs) h = (ground (arith, h), find-none-All xs (ground (arith, h)))

  pub find-All-none : (xs : List A) → All (λ x. p x ≡ false) xs → find p xs ≡ none
  find-All-none [] h = refl
  find-All-none (x ∷ xs) (h, hs) = ground (arith, h, find-All-none xs hs)

  pub count-find : (xs : List A) → count p xs ≡ 0 → find p xs ≡ none
  count-find [] h = refl
  count-find (x ∷ xs) h = ground (arith, count-find xs)

  pub select-All : (xs : List A) → All (λ x. p x ≡ true) xs → select p xs ≡ xs
  select-All [] h = refl
  select-All (x ∷ xs) (h, hs) = rw h (ap (λ ys. x ∷ ys) (select-All xs hs))

-- What is selected apart from the rows that are looked for has none of them.
pub find-select-none {ℓ} :
    {A : Type ℓ} (p q : A → Bool) (xs : List A)
    → All (λ x. (p x && q x) ≡ false) xs
    → find p (select q xs) ≡ none
find-select-none p q [] h = refl
find-select-none p q (x ∷ xs) (h, hs) = ground (arith, h, find-select-none p q xs hs)

-- What holds of each row as it is after an UPDATE.
pub All-update-imp {ℓ κ μ} :
    {A : Type ℓ} (P : A → Type κ) (Q : A → Type μ) (p : A → Bool) (f : A → A)
    → ((x : A) → P x → Q (if p x then f x else x))
    → (xs : List A) → All P xs
    → All Q (update p f xs)
All-update-imp P Q p f imp [] h = tt
All-update-imp P Q p f imp (x ∷ xs) (h, hs) = (imp x h, All-update-imp P Q p f imp xs hs)

pub count-select {ℓ} :
    {A : Type ℓ} (p q : A → Bool) (xs : List A) → count p (select q xs) ≤ count p xs
count-select p q [] = omega arith
count-select p q (x ∷ xs) = ground (arith, count-select p q xs)

module _ {ℓ} {A : Type ℓ} (p : A → Bool) where
  abbrev pub every : List A → Bool
  every [] = true
  every (x ∷ xs) = p x && every xs

  pub every-append : (xs ys : List A) → every (xs ++ ys) ≡ (every xs && every ys)
  every-append [] ys = refl
  every-append (x ∷ xs) ys = ground (arith, every-append xs ys)
