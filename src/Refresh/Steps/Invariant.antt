-- ===== src/Refresh/Steps/Invariant.antt =====
-- The refresh tables in every reachable state (internal/authn/refresh.go).
use mathlib.Core.Path.{subst}
use tenant_api_platform.Prelude.{
  ℕ, false, ok, Option, none, some, Option-cases, List, [], ◌∷◌, ◌++◌, ◌≡◌, refl, sym, ◌∙◌, ap,
  arith, inl, inr, ◌⊎◌, Bool-cases, ◌==◌, ==_iff, find, find-append, find-eq-some, count-eq-zero,
  All-imp, All-lookup,
}
use tenant_api_platform.Db.Laws.{continue-eq-ok}
use tenant_api_platform.Refresh.Tables.{
  Family, Token, Sessions, has_family, has_hash, new_token, insert_family,
}
use tenant_api_platform.Refresh.Tables.Laws.{insert_token-Inserted, insert_family-inserted}
use tenant_api_platform.Refresh.Store.{RefreshStore, Clocks, secret_text, start_tx}
use tenant_api_platform.Refresh.Rotate.{unconsumed, read_family, rotate_read}
use tenant_api_platform.Refresh.Steps.{Running, Step, Reach, empty}
use tenant_api_platform.Refresh.Steps.Effects.{Effect, Step-Effect}
use tenant_api_platform.Refresh.Steps.Safe.{Safe, Owned, Stored, usable}
use tenant_api_platform.Refresh.Steps.Kept.{
  tables_are, insert-Safe, Minted-Safe, revoke_where-Safe, Owned-append,
}

-- A family that is not in the table has no token.
unused :
    (families : List Family) (id : ℕ) (t : Token)
    → find (has_family id) families ≡ none
    → Owned families t
    → usable id t ≡ false
unused families id t fresh (f, e, u) = elim (Bool-cases (t.family_id == id)) [
  | inl k ↦
      let gone = subst (λ n. find (has_family n) families ≡ some f) ((==_iff _ _).0 k) e in
      cc (gone, fresh)
  | inr k ↦ ground (arith, k)
]

abbrev session : ℕ → ℕ → Family
session id user_id = record { id = id; user_id = user_id; revoked_at = none; revoked_reason = none }

start_tx-Safe :
    (hash family_id user_id now expires_at : ℕ) (x : Running) (s' : Sessions)
    → Safe x
    → start_tx family_id user_id (new_token hash family_id user_id now expires_at) x.tables
      ≡ ok (tt, s')
    → Safe (record x { tables = s' })
unfolding start_tx
start_tx-Safe hash family_id user_id now expires_at x s' s h =
    let t = new_token hash family_id user_id now expires_at in
    let ((u, s1), first, second) = continue-eq-ok (insert_family family_id user_id x.tables) _ h in
    let (fresh, same) = insert_family-inserted family_id user_id x.tables s1 first in
    let i = insert_token-Inserted t s1 s' second in
    let families : s1.families ≡ x.tables.families ++ session family_id user_id ∷ [] =
      ap (λ y. y.families) same in
    let tokens : s1.tokens ≡ x.tables.tokens = ap (λ y. y.tokens) same in
    let made =
      insert-Safe (x.tables.families ++ session family_id user_id ∷ []) t x s
        (subst (λ ts. find (has_hash hash) ts ≡ none) tokens i.fresh)
        (count-eq-zero (usable family_id) x.tables.tokens
          (All-imp _ (λ r. unused x.tables.families family_id r fresh) x.tables.tokens s.owned))
        (
          session family_id user_id,
          find-append (has_family family_id) x.tables.families _ fresh ∙ ground arith,
          refl,
        )
        (Owned-append x.tables.families _) in
    tables_are s' _ _ x.reads (i.families ∙ families) (i.tokens ∙ ap (λ ts. ts ++ t ∷ []) tokens)
      made

read_family-eq :
    (st : RefreshStore) (c : Clocks) (r t : Token) (f : Option Family)
    → read_family st c r f ≡ unconsumed t
    → r ≡ t
read_family-eq st c r t none h = cc
read_family-eq st c r t (some f) h = ground arith

-- Only a live row whose hash was looked for is read.
rotate_read-Stored :
    (st : RefreshStore) (c : Clocks) (hash : ℕ) (s : Sessions) (t : Token)
    → rotate_read st c hash s ≡ unconsumed t
    → Stored s.tokens t
unfolding rotate_read
rotate_read-Stored st c hash s t h = elim (Option-cases (find (has_hash hash) s.tokens)) [
  | inl e ↦ absurd (ground arith)
  | inr (r, e) ↦
      let same : r ≡ t = read_family-eq st c r t _ (rw e at h) in
      let key : t.token_hash ≡ hash =
        (==_iff _ _).0 (cc (find-eq-some (has_hash hash) s.tokens r e, same)) in
      (t, cc (e, same, key), refl, refl)
]

module _ (st : RefreshStore) where
  Effect-Safe :
      (x : Running) (s' : Sessions)
      → Safe x
      → Effect st x.reads x.tables s'
      → Safe (record x { tables = s' })
  Effect-Safe x s' s (Effect.kept e) = subst (λ y. Safe (record x { tables = y })) (sym e) s
  Effect-Safe x s' s (Effect.revoked selected user_id now reason e) =
      subst (λ y. Safe (record x { tables = y })) (sym e)
        (revoke_where-Safe selected user_id now reason x s)
  Effect-Safe x s' s (Effect.begun family_id user_id now expires_at text e) =
      start_tx-Safe (st.hash (secret_text text)) family_id user_id now expires_at x s' s e
  Effect-Safe x s' s (Effect.minted c ttl text t pair m made) =
      Minted-Safe st c ttl text t pair x s' made s (All-lookup _ x.reads m s.stored)

  reads_kept :
      (x y : Running)
      → Step st x y
      → (y.reads ≡ x.reads)
        ⊎ ((t : Token) × (y.reads ≡ t ∷ x.reads) × Stored x.tables.tokens t × (y.tables ≡ x.tables))
  reads_kept x y (Step.read c hash t e) =
      inr (t, refl, rotate_read-Stored st c hash x.tables t e, refl)
  reads_kept x y (Step.started c family_id random user_id ttl) = inl refl
  reads_kept x y (Step.written c ttl random t m) = inl refl
  reads_kept x y (Step.family_revoked user_id family_id reason db_now) = inl refl
  reads_kept x y (Step.token_revoked presented reason db_now) = inl refl
  reads_kept x y (Step.all_revoked user_id reason db_now) = inl refl

  Step-Safe : (x y : Running) → Step st x y → Safe x → Safe y
  Step-Safe x y step s = elim (reads_kept x y step) [
    | inl e ↦
        subst (λ rs. Safe (record { tables = y.tables; reads = rs })) (sym e)
          (Effect-Safe x y.tables s (Step-Effect st x y step))
    | inr (t, e, stored, same) ↦
        subst (λ rs. Safe (record { tables = y.tables; reads = rs })) (sym e)
          (subst (λ ts. Safe (record { tables = ts; reads = t ∷ x.reads })) (sym same)
            (record {
              unique = s.unique;
              owned = s.owned;
              single = s.single;
              stored = (stored, s.stored);
            }))
  ]

  -- In every state that requests can reach, however their transactions interleave, no two tokens
  -- have the same hash, each token belongs to a family of its own user, no family has more than one
  -- token that has not been consumed, and the rows that were read are still there.
  pub Reach-Safe : (x : Running) → Reach st empty x → Safe x
  Reach-Safe x Reach.here = record {
    unique = tt;
    owned = tt;
    single = λ k. omega arith;
    stored = tt;
  }
  Reach-Safe x (Reach.after {y = y} r s) = Step-Safe y x s (Reach-Safe y r)
