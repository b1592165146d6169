-- ===== src/Refresh/Steps/Kept.antt =====
-- Every step keeps what holds of the refresh tables (internal/authn/refresh.go).
use mathlib.Core.Path.{subst}
use mathlib.Core.Option
use tenant_api_platform.Prelude.{
  ℕ, ◌≤◌, Bool, true, none, List, [], ◌∷◌, ◌++◌, ◌≡◌, refl, sym, ◌∙◌, ap, arith, inl, inr,
  Bool-cases, ◌==◌, ==_iff, find, if◌then◌else◌, update, count, All-append, All-update,
  find-eq-some, find-update, count-append, count-update, count-update-lt, All-imp, All-find,
  find-append-some,
}
use tenant_api_platform.Prelude.Runes.{Runes}
use tenant_api_platform.Refresh.Tables.{Family, Token, Sessions, has_family, has_hash, revoke_where}
use tenant_api_platform.Refresh.Store.{RefreshStore, Clocks, TokenPair, secret_text}
use tenant_api_platform.Refresh.Rotate.{claimable, consume, link, successor}
use tenant_api_platform.Refresh.Rotate.Minted.{Minted}
use tenant_api_platform.Refresh.Steps.{Running}
use tenant_api_platform.Refresh.Steps.Safe.{
  Safe, Owned, Stored, usable, claimed_row, Unique-append, Unique-update,
}

Owned-update :
    (p : Family → Bool) (f : Family → Family) (families : List Family)
    → ((x : Family) → (f x).id ≡ x.id)
    → ((x : Family) → (f x).user_id ≡ x.user_id)
    → (t : Token) → Owned families t
    → Owned (update p f families) t
Owned-update p f families id user t (g, e, u) = (
  if p g then f g else g,
  find-update p f (has_family t.family_id) (λ x. ap (λ k. k == t.family_id) (id x)) families
      ∙ ap (Option.map _) e,
  ground (arith, u, user g),
)

pub revoke_where-Safe :
    (selected : Family → Bool) (user_id now : ℕ) (reason : Runes) (x : Running)
    → Safe x
    → Safe (record x { tables = revoke_where selected user_id now reason x.tables })
unfolding revoke_where
revoke_where-Safe selected user_id now reason x s = record {
  unique = s.unique;
  owned =
      All-imp _ (Owned-update _ _ x.tables.families (λ f. refl) (λ f. refl)) x.tables.tokens
        s.owned;
  single = s.single;
  stored = s.stored;
}

Stored-append : (ts ys : List Token) (t : Token) → Stored ts t → Stored (ts ++ ys) t
Stored-append ts ys t (row, e, f, u) =
    (row, find-append-some (has_hash t.token_hash) ts ys row e, f, u)

-- The columns that no UPDATE of these statements sets.
abbrev Kept : Token → Token → Type 0
Kept t t' = (t'.token_hash ≡ t.token_hash) × (t'.family_id ≡ t.family_id) × (t'.user_id ≡ t.user_id)

Owned-Kept :
    (families : List Family) (t t' : Token) → Kept t t' → Owned families t → Owned families t'
Owned-Kept families t t' (hash, fam, user) (g, e, u) = (g, cc (e, fam), cc (u, user))

Stored-update :
    (p : Token → Bool) (f : Token → Token)
    → ((t : Token) → Kept t (f t))
    → (ts : List Token) (t : Token) → Stored ts t
    → Stored (update p f ts) t
Stored-update p f kept ts t (row, e, fam, u) =
    let (_, same_family, same_user) = kept row in
    (
      if p row then f row else row,
      find-update p f (has_hash t.token_hash) (λ x. ap (λ k. k == t.token_hash) (kept x).0) ts
          ∙ ap (Option.map _) e,
      ground (arith, fam, same_family),
      ground (arith, u, same_user),
    )

pub Owned-append :
    (families : List Family) (ys : List Family) (t : Token)
    → Owned families t
    → Owned (families ++ ys) t
Owned-append families ys t (g, e, u) =
    (g, find-append-some (has_family t.family_id) families ys g e, u)

single_append :
    (t : Token) (ts : List Token)
    → count (usable t.family_id) ts ≡ 0
    → ((k : ℕ) → count (usable k) ts ≤ 1)
    → (k : ℕ) → count (usable k) (ts ++ t ∷ []) ≤ 1
single_append t ts unused single k =
    let split = count-append (usable k) ts (t ∷ []) in
    elim (Bool-cases (t.family_id == k)) [
      | inl e ↦
          let none_left : count (usable k) ts ≡ 0 =
            subst (λ n. count (usable n) ts ≡ 0) ((==_iff _ _).0 e) unused in
          let last : count (usable k) (t ∷ []) ≤ 1 = ground arith in
          omega (arith, split, none_left, last)
      | inr e ↦
          let last : count (usable k) (t ∷ []) ≡ 0 = ground (arith, e) in
          omega (arith, split, last, single k)
    ]

-- A new token of a family with no usable one.
pub insert-Safe :
    (families : List Family) (t : Token) (x : Running)
    → Safe x
    → find (has_hash t.token_hash) x.tables.tokens ≡ none
    → count (usable t.family_id) x.tables.tokens ≡ 0
    → Owned families t
    → ((r : Token) → Owned x.tables.families r → Owned families r)
    → Safe
        (record x { tables = record { families = families; tokens = x.tables.tokens ++ t ∷ [] } })
insert-Safe families t x s fresh unused owned kept = record {
  unique = Unique-append t x.tables.tokens fresh s.unique;
  owned =
      All-append _ x.tables.tokens (t ∷ []) (All-imp _ kept x.tables.tokens s.owned) (owned, tt);
  single = single_append t x.tables.tokens unused s.single;
  stored = All-imp _ (Stored-append x.tables.tokens (t ∷ [])) x.reads s.stored;
}

-- Rows rewritten in their other columns, and none made usable.
rewrite-Safe :
    (p : Token → Bool) (f : Token → Token)
    → ((t : Token) → Kept t (f t))
    → ((k : ℕ) (t : Token) → p t ≡ true → usable k (f t) ≡ true → usable k t ≡ true)
    → (x : Running) → Safe x
    → Safe (record x { tables = record x.tables { tokens = update p f x.tables.tokens } })
rewrite-Safe p f kept shrinks x s = record {
  unique = Unique-update p f (λ r. (kept r).0) x.tables.tokens s.unique;
  owned =
      All-update (Owned x.tables.families) p f
        (λ r h k. Owned-Kept x.tables.families r (f r) (kept r) h) x.tables.tokens s.owned;
  single = λ k. omega (arith, s.single k, count-update (usable k) p f (shrinks k) x.tables.tokens);
  stored = All-imp _ (Stored-update p f kept x.tables.tokens) x.reads s.stored;
}

pub tables_are :
    (s' : Sessions) (families : List Family) (tokens : List Token) (reads : List Token)
    → s'.families ≡ families
    → s'.tokens ≡ tokens
    → Safe (record { tables = record { families = families; tokens = tokens }; reads = reads })
    → Safe (record { tables = s'; reads = reads })
tables_are s' families tokens reads e k s =
    subst
      (λ fs. Safe (record { tables = record { families = fs; tokens = s'.tokens }; reads = reads }))
      (sym e)
      (subst
        (λ ts.
          Safe (record { tables = record { families = families; tokens = ts }; reads = reads }))
        (sym k) s)

module _ (st : RefreshStore) (c : Clocks) (ttl : ℕ) (text : Runes) (t : Token) (pair : TokenPair)
    (x : Running) (s' : Sessions) (m : Minted st c ttl text t pair x.tables s') where
  claimed : List Token
  claimed = update (claimable t.token_hash) (consume c.db_now) x.tables.tokens

  -- The row that was consumed was the family's only usable token.
  exhausted : Safe x → Stored x.tables.tokens t → count (usable t.family_id) claimed ≡ 0
  unfolding claimed
  exhausted s (row, there, fam, user) =
      let same = claimed_row t.token_hash x.tables.tokens row m.row s.unique there m.found in
      let selected = find-eq-some (claimable t.token_hash) x.tables.tokens m.row m.found in
      let family : m.row.family_id ≡ t.family_id = cc (same, fam) in
      let used : usable t.family_id m.row ≡ true = ground (arith, selected, family) in
      omega (
        arith,
        s.single t.family_id,
        count-update-lt (usable t.family_id) (claimable t.token_hash) (consume c.db_now)
            (λ r a. ground arith) m.row used x.tables.tokens m.found,
      )

  -- The successor is of the family and the user of the row that was read.
  succeeds : Safe x → Stored x.tables.tokens t → Owned x.tables.families (successor st c ttl text t)
  succeeds s (row, there, fam, user) =
      let (g, e, u) =
        All-find (Owned x.tables.families) (has_hash t.token_hash) x.tables.tokens there s.owned in
      (g, cc (e, fam), cc (u, user))

  pub Minted-Safe : Safe x → Stored x.tables.tokens t → Safe (record x { tables = s' })
  unfolding claimed
  Minted-Safe s stored =
      let consumed =
        rewrite-Safe (claimable t.token_hash) (consume c.db_now) (λ r. (refl, refl, refl))
          (λ k r a b. ground arith) x s in
      let inserted =
        insert-Safe x.tables.families (successor st c ttl text t) _ consumed m.fresh
          (exhausted s stored) (succeeds s stored) (λ r h. h) in
      let linked =
        rewrite-Safe (has_hash t.token_hash) (link (st.hash (secret_text text)))
          (λ r. (refl, refl, refl)) (λ k r a b. b) _ inserted in
      tables_are s' x.tables.families _ x.reads m.families m.tokens linked
