-- ===== src/Refresh/Steps/Spent.antt =====
-- A refresh token that was consumed, and a family that was revoked, stay so
-- (internal/authn/refresh.go).
use mathlib.Core.Path.{subst}
use mathlib.Core.Option
use tenant_api_platform.Prelude.{
  ℕ, Bool, true, ◌&&◌, ok, none, some, List, [], ◌∷◌, ◌++◌, ◌≡◌, refl, sym, ◌∙◌, ap, arith, inl,
  inr, Bool-cases, ◌==◌, ==_iff, find, find-append, if◌then◌else◌, update, find-update,
  find-update-still_none, find-append-some,
}
use tenant_api_platform.Audit.{is_some}
use tenant_api_platform.Db.Laws.{continue-eq-ok}
use tenant_api_platform.Refresh.Tables.{
  Family, Token, Sessions, has_family, has_hash, own_family, revoke_where, new_token, insert_family,
}
use tenant_api_platform.Refresh.Tables.Laws.{insert_token-Inserted, insert_family-inserted}
use tenant_api_platform.Refresh.Store.{RefreshStore, secret_text, start_tx}
use tenant_api_platform.Refresh.Rotate.{claimable, consume, successor}
use tenant_api_platform.Refresh.Steps.{Running, Reach}
use tenant_api_platform.Refresh.Steps.Effects.{Effect, Step-Effect}

-- The token is in the table and cannot be consumed.
pub record Spent (hash : ℕ) (ts : List Token) : Type 0 where
  pub row : Token
  pub there : find (has_hash hash) ts ≡ some row
  pub gone : find (claimable hash) ts ≡ none

Spent-append :
    (hash : ℕ) (ts : List Token) (t : Token)
    → find (has_hash t.token_hash) ts ≡ none
    → Spent hash ts
    → Spent hash (ts ++ t ∷ [])
Spent-append hash ts t fresh s = record {
  row = s.row;
  there = find-append-some (has_hash hash) ts _ s.row s.there;
  gone = find-append (claimable hash) ts (t ∷ []) s.gone ∙ elim (Bool-cases (has_hash hash t)) [
    | inl e ↦
        let lost = subst (λ n. find (has_hash n) ts ≡ none) ((==_iff _ _).0 e) fresh in
        cc (lost, s.there)
    | inr e ↦ ground (arith, e)
  ];
}

Spent-update :
    (hash : ℕ) (p : Token → Bool) (f : Token → Token)
    → ((t : Token) → (f t).token_hash ≡ t.token_hash)
    → ((t : Token) → claimable hash (f t) ≡ true → claimable hash t ≡ true)
    → (ts : List Token) → Spent hash ts
    → Spent hash (update p f ts)
Spent-update hash p f kept shrinks ts s = record {
  row = if p s.row then f s.row else s.row;
  there =
      find-update p f (has_hash hash) (λ x. ap (λ k. k == hash) (kept x)) ts
      ∙ ap (Option.map _) s.there;
  gone = find-update-still_none (claimable hash) p f shrinks ts s.gone;
}

-- The family is in the table, visible to its user, and revoked.
pub record Revoked (user_id family_id : ℕ) (families : List Family) : Type 0 where
  pub family : Family
  pub there : find (λ f. own_family user_id f && has_family family_id f) families ≡ some family
  pub since : is_some family.revoked_at ≡ true

Revoked-update :
    (user_id family_id : ℕ) (p : Family → Bool) (f : Family → Family)
    → ((x : Family) → (f x).id ≡ x.id)
    → ((x : Family) → (f x).user_id ≡ x.user_id)
    → ((x : Family) → is_some (f x).revoked_at ≡ true)
    → (families : List Family) → Revoked user_id family_id families
    → Revoked user_id family_id (update p f families)
Revoked-update user_id family_id p f id user since families r = record {
  family = if p r.family then f r.family else r.family;
  there =
      find-update p f _ (λ x. ground (arith, id x, user x)) families ∙ ap (Option.map _) r.there;
  since = ground (arith, since r.family, r.since);
}

begun_rows :
    (hash family_id user_id now expires_at : ℕ) (s s' : Sessions)
    → start_tx family_id user_id (new_token hash family_id user_id now expires_at) s ≡ ok (tt, s')
    → (find (has_hash hash) s.tokens ≡ none)
      × (s'.tokens ≡ s.tokens ++ new_token hash family_id user_id now expires_at ∷ [])
      × ((f : Family) × (s'.families ≡ s.families ++ f ∷ []))
unfolding start_tx
begun_rows hash family_id user_id now expires_at s s' h =
    let ((u, s1), first, second) = continue-eq-ok (insert_family family_id user_id s) _ h in
    let (fresh, same) = insert_family-inserted family_id user_id s s1 first in
    let i = insert_token-Inserted (new_token hash family_id user_id now expires_at) s1 s' second in
    let kept : s1.tokens ≡ s.tokens = ap (λ y. y.tokens) same in
    (
      subst (λ ts. find (has_hash hash) ts ≡ none) kept i.fresh,
      i.tokens ∙ ap (λ ts. ts ++ new_token hash family_id user_id now expires_at ∷ []) kept,
      (_, i.families ∙ ap (λ y. y.families) same),
    )

module _ (st : RefreshStore) where
  Effect-Spent :
      (hash : ℕ) (x : Running) (s' : Sessions)
      → Effect st x.reads x.tables s'
      → Spent hash x.tables.tokens
      → Spent hash s'.tokens
  unfolding revoke_where
  Effect-Spent hash x s' (Effect.kept e) s = subst (λ y. Spent hash y.tokens) (sym e) s
  Effect-Spent hash x s' (Effect.revoked selected user_id now reason e) s =
      subst (λ y. Spent hash y.tokens) (sym e) s
  Effect-Spent hash x s' (Effect.begun family_id user_id now expires_at text e) s =
      let (fresh, tokens, _) =
        begun_rows (st.hash (secret_text text)) family_id user_id now expires_at x.tables s' e in
      subst (Spent hash) (sym tokens) (Spent-append hash x.tables.tokens _ fresh s)
  Effect-Spent hash x s' (Effect.minted c ttl text t pair m made) s =
      subst (Spent hash) (sym made.tokens) (
        Spent-update hash _ _ (λ r. refl) (λ r e. e) _
          (Spent-append hash _ (successor st c ttl text t) made.fresh (
            Spent-update hash (claimable t.token_hash) (consume c.db_now) (λ r. refl)
              (λ r e. ground arith) x.tables.tokens s)))

  Effect-Revoked :
      (user_id family_id : ℕ) (x : Running) (s' : Sessions)
      → Effect st x.reads x.tables s'
      → Revoked user_id family_id x.tables.families
      → Revoked user_id family_id s'.families
  unfolding revoke_where
  Effect-Revoked user_id family_id x s' (Effect.kept e) r =
      subst (λ y. Revoked user_id family_id y.families) (sym e) r
  Effect-Revoked user_id family_id x s' (Effect.revoked selected user now reason e) r =
      subst (λ y. Revoked user_id family_id y.families) (sym e)
        (Revoked-update user_id family_id _ _ (λ f. refl) (λ f. refl) (λ f. refl) x.tables.families
          r)
  Effect-Revoked user_id family_id x s' (Effect.begun id user now expires_at text e) r =
      let (_, _, (f, families)) =
        begun_rows (st.hash (secret_text text)) id user now expires_at x.tables s' e in
      subst (Revoked user_id family_id) (sym families) (record {
        family = r.family;
        there = find-append-some _ x.tables.families _ r.family r.there;
        since = r.since;
      })
  Effect-Revoked user_id family_id x s' (Effect.minted c ttl text t pair m made) r =
      subst (Revoked user_id family_id) (sym made.families) r

  pub Reach-Spent :
      (hash : ℕ) (x y : Running)
      → Reach st x y
      → Spent hash x.tables.tokens
      → Spent hash y.tables.tokens
  Reach-Spent hash x y Reach.here s = s
  Reach-Spent hash x z (Reach.after {y = y} r step) s =
      Effect-Spent hash y z.tables (Step-Effect st y z step) (Reach-Spent hash x y r s)

  pub Reach-Revoked :
      (user_id family_id : ℕ) (x y : Running)
      → Reach st x y
      → Revoked user_id family_id x.tables.families
      → Revoked user_id family_id y.tables.families
  Reach-Revoked user_id family_id x y Reach.here s = s
  Reach-Revoked user_id family_id x z (Reach.after {y = y} r step) s =
      Effect-Revoked user_id family_id y z.tables (Step-Effect st y z step)
        (Reach-Revoked user_id family_id x y r s)
