-- ===== src/RateLimit/Script/Order.antt =====
-- The order of a sorted set, and what the script's commands do to its scores.
use tenant_api_platform.Prelude.{
  ℕ, suc, ◌≤◌, Bool, false, not, List, [], ◌∷◌, ◌++◌, ◌≡◌, refl, ap, arith, length, select, All,
  All-imp, Bool-cases, inl, inr,
}
use tenant_api_platform.RateLimit.Script.{
  Slot, redis_now, in_window, evict, comes_before, insert_entry, has_member, zadd, scores,
}

pub redis_now_mono : (s t : ℕ) → s ≤ t → redis_now s ≤ redis_now t
unfolding redis_now
redis_now_mono s t h = omega arith

abbrev pub Sorted : List Slot → Type 0
Sorted [] = Unit
Sorted (e ∷ es) = All (λ x. e.score ≤ x.score) es × Sorted es

module _ (p : Slot → Bool) where
  pub select-All_of {κ} : (P : Slot → Type κ) (es : List Slot) → All P es → All P (select p es)
  select-All_of P [] h = tt
  select-All_of P (e ∷ es) (h, hs) = elim (Bool-cases (p e)) [
    | inl k ↦ rw k (h, select-All_of P es hs)
    | inr k ↦ rw k (select-All_of P es hs)
  ]

  pub select-Sorted : (es : List Slot) → Sorted es → Sorted (select p es)
  select-Sorted [] h = tt
  select-Sorted (e ∷ es) (h, hs) = elim (Bool-cases (p e)) [
    | inl k ↦ rw k (select-All_of (λ x. e.score ≤ x.score) es h, select-Sorted es hs)
    | inr k ↦ rw k (select-Sorted es hs)
  ]

pub length-scores : (es : List Slot) → length (scores es) ≡ length es
length-scores [] = refl
length-scores (e ∷ es) = ap suc (length-scores es)

-- Eviction is by score alone.
pub scores-evict :
    (window now : ℕ) (es : List Slot)
    → scores (evict window now es) ≡ select (in_window window now) (scores es)
unfolding evict
scores-evict window now [] = refl
scores-evict window now (e ∷ es) = ground (arith, scores-evict window now es)

-- Entries that all have one score, in whichever order.
swap_equal :
    (now : ℕ) (es : List Slot)
    → All (λ x. x.score ≤ now) es
    → All (λ x. now ≤ x.score) es
    → now ∷ scores es ≡ scores es ++ now ∷ []
swap_equal now [] h k = refl
swap_equal now (e ∷ es) (h, hs) (k, ks) =
    let same : e.score ≡ now = omega arith in rw same (ap (λ l. now ∷ l) (swap_equal now es hs ks))

-- An entry that is as late as any is last by score.
pub scores-insert_entry :
    (e : Slot) (es : List Slot)
    → Sorted es
    → All (λ x. x.score ≤ e.score) es
    → scores (insert_entry e es) ≡ scores es ++ e.score ∷ []
unfolding insert_entry
scores-insert_entry e [] s h = refl
scores-insert_entry e (x ∷ xs) (low, s) (h, hs) = elim (Bool-cases (comes_before e x)) [
  | inl k ↦
      let reached : e.score ≤ x.score = ground (arith, k) in
      rw k
        (swap_equal e.score (x ∷ xs) (h, hs) (reached, All-imp _ (λ y below. omega arith) xs low))
  | inr k ↦ rw k (ap (λ l. x.score ∷ l) (scores-insert_entry e xs s hs))
]

pub insert_entry-All {κ} :
    (P : Slot → Type κ) (e : Slot) (es : List Slot) → P e → All P es → All P (insert_entry e es)
unfolding insert_entry
insert_entry-All P e [] h hs = (h, tt)
insert_entry-All P e (x ∷ xs) h (k, ks) = elim (Bool-cases (comes_before e x)) [
  | inl b ↦ rw b (h, (k, ks))
  | inr b ↦ rw b (k, insert_entry-All P e xs h ks)
]

pub insert_entry-Sorted : (e : Slot) (es : List Slot) → Sorted es → Sorted (insert_entry e es)
unfolding insert_entry
insert_entry-Sorted e [] s = (tt, tt)
insert_entry-Sorted e (x ∷ xs) (low, s) = elim (Bool-cases (comes_before e x)) [
  | inl k ↦
      let reached : e.score ≤ x.score = ground (arith, k) in
      rw k ((reached, All-imp _ (λ y below. omega arith) xs low), (low, s))
  | inr k ↦
      let reached : x.score ≤ e.score = ground (arith, k) in
      rw k (insert_entry-All (λ y. x.score ≤ y.score) e xs reached low, insert_entry-Sorted e xs s)
]

-- A fresh member is inserted.
pub zadd_fresh :
    (e : Slot) (es : List Slot)
    → All (λ x. has_member e.member x ≡ false) es
    → zadd e es ≡ insert_entry e es
unfolding zadd
zadd_fresh e es h = ap (insert_entry e) (kept es h)
  where
    kept :
        (xs : List Slot)
        → All (λ x. has_member e.member x ≡ false) xs
        → select (λ x. not (has_member e.member x)) xs ≡ xs
    kept [] h = refl
    kept (x ∷ xs) (h, hs) = rw h (ap (λ l. x ∷ l) (kept xs hs))
