-- ===== src/Refresh/Steps/Safe.antt =====
-- What holds of the refresh tables between any two steps (internal/authn/refresh.go).
use mathlib.Core.Path.{subst}
use mathlib.Core.Option
use tenant_api_platform.Prelude.{
  ℕ, ◌≤◌, Bool, ◌&&◌, none, some, List, [], ◌∷◌, ◌++◌, ◌≡◌, refl, ◌∙◌, ap, arith, inl, inr,
  Bool-cases, ◌==◌, ==_iff, find, find-append, if◌then◌else◌, update, count, All, find-none_of,
  find-update,
}
use tenant_api_platform.Refresh.Tables.{Family, Token, has_family, has_hash, is_unconsumed}
use tenant_api_platform.Refresh.Rotate.{claimable}
use tenant_api_platform.Refresh.Steps.{Running}

-- The unconsumed tokens of a family.
abbrev pub usable : ℕ → Token → Bool
usable family_id t = t.family_id == family_id && is_unconsumed t

-- No two rows with the same hash.
abbrev pub Unique : List Token → Type 0
Unique [] = Unit
Unique (t ∷ ts) = (find (has_hash t.token_hash) ts ≡ none) × Unique ts

-- The token's family is in the table, and belongs to the token's user.
abbrev pub Owned : List Family → Token → Type 0
Owned families t =
    (f : Family) × (find (has_family t.family_id) families ≡ some f) × (f.user_id ≡ t.user_id)

-- The row that was read is still there, in the same family of the same user.
abbrev pub Stored : List Token → Token → Type 0
Stored tokens t =
    (row : Token) × (find (has_hash t.token_hash) tokens ≡ some row)
    × (row.family_id ≡ t.family_id)
    × (row.user_id ≡ t.user_id)

pub record Safe (x : Running) : Type 0 where
  pub unique : Unique x.tables.tokens
  pub owned : All (Owned x.tables.families) x.tables.tokens
  pub single : (family_id : ℕ) → count (usable family_id) x.tables.tokens ≤ 1
  pub stored : All (Stored x.tables.tokens) x.reads

pub Unique-append :
    (t : Token) (ts : List Token)
    → find (has_hash t.token_hash) ts ≡ none
    → Unique ts
    → Unique (ts ++ t ∷ [])
Unique-append t [] h u = (refl, tt)
Unique-append t (x ∷ ts) h (first, u) = (
  find-append (has_hash x.token_hash) ts (t ∷ []) first ∙ ground (arith, h),
  Unique-append t ts (ground (arith, h)) u,
)

pub Unique-update :
    (p : Token → Bool) (f : Token → Token)
    → ((t : Token) → (f t).token_hash ≡ t.token_hash)
    → (ts : List Token) → Unique ts
    → Unique (update p f ts)
Unique-update p f kept [] u = tt
Unique-update p f kept (x ∷ ts) (first, u) =
    let hash : (if p x then f x else x).token_hash ≡ x.token_hash = ground (arith, kept x) in
    (
      rw hash (
          find-update p f (has_hash x.token_hash) (λ t. ap (λ k. k == x.token_hash) (kept t)) ts
          ∙ ap (Option.map _) first),
      Unique-update p f kept ts u,
    )

-- The row that the conditional UPDATE finds is the one with that hash.
pub claimed_row :
    (hash : ℕ) (ts : List Token) (row c : Token)
    → Unique ts
    → find (has_hash hash) ts ≡ some row
    → find (claimable hash) ts ≡ some c
    → c ≡ row
claimed_row hash [] row c u h k = cc
claimed_row hash (x ∷ ts) row c (first, u) h k = elim (Bool-cases (has_hash hash x)) [
  | inl e ↦
      let same : x.token_hash ≡ hash = (==_iff _ _).0 e in
      let gone : find (claimable hash) ts ≡ none =
        find-none_of (claimable hash) (has_hash hash) (λ t m. ground arith) ts
          (subst (λ n. find (has_hash n) ts ≡ none) (same) first) in
      ground (arith, gone)
  | inr e ↦ claimed_row hash ts row c u (ground arith) (ground arith)
]
