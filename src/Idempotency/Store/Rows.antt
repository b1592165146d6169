-- ===== src/Idempotency/Store/Rows.antt =====
-- The statements of internal/idempotency/store.go on the one row of a key.
use tenant_api_platform.Prelude.{
  ℕ, ◌≤◌, Bool, true, false, not, ◌&&◌, none, some, [], ◌∷◌, ◌++◌, ◌≡◌, refl, ◌∙◌, ap, arith, inl,
  inr, ◌⊎◌, Bool-cases, find, find-append, find-update, update, count, All, All-append, All-imp,
  find-eq-some, find-none-All, find-All-none, count-find, select-All, find-narrow, find-select-none,
  All-update-imp, Bool-no_conf,
}
use mathlib.Core.Option
use tenant_api_platform.Prelude.Runes.{Runes}
use tenant_api_platform.Tenant.{Authorized}
use tenant_api_platform.Idempotency.Store.{
  KeyRow, Keys, KeyStore, at_key, is_expired, is_stale, retaken, insert_claim, clear_expired,
  take_over,
}

-- The row of a key.
pub record SoleRow (tenant_id : ℕ) (key : Runes) (r : KeyRow) (ks : Keys) : Type 0 where
  pub there : find (at_key tenant_id key) ks ≡ some r
  pub only : All (λ x. (at_key tenant_id key x ≡ false) ⊎ (x ≡ r)) ks

module _ (p : KeyRow → Bool) where
  lone_row :
      (xs : Keys) (r : KeyRow)
      → count p xs ≤ 1
      → find p xs ≡ some r
      → All (λ x. (p x ≡ false) ⊎ (x ≡ r)) xs
  lone_row [] r h e = tt
  lone_row (x ∷ xs) r h e = elim (Bool-cases (p x)) [
    | inl k ↦ (
      inr (ground arith),
      All-imp _ (λ y g. inl g) xs (find-none-All p xs (count-find p xs (ground (arith, k, h)))),
    )
    | inr k ↦ (inl k, lone_row xs r (ground (arith, k, h)) (ground (arith, k, e)))
  ]

-- The row of the key, rewritten.
pub SoleRow-update :
    (p : KeyRow → Bool) (f : KeyRow → KeyRow) (tenant_id : ℕ) (key : Runes)
    → ((x : KeyRow) → at_key tenant_id key (f x) ≡ at_key tenant_id key x)
    → ((x : KeyRow) → p x ≡ true → at_key tenant_id key x ≡ true)
    → (ks : Keys) (r : KeyRow) → SoleRow tenant_id key r ks
    → p r ≡ true
    → SoleRow tenant_id key (f r) (update p f ks)
SoleRow-update p f tenant_id key kept named ks r row h = record {
  there =
      find-update p f (at_key tenant_id key) kept ks
      ∙ ap (Option.map _) row.there
      ∙ ground (arith, h);
  only =
      All-update-imp _ (λ x. (at_key tenant_id key x ≡ false) ⊎ (x ≡ f r)) p f
        (λ x k. elim (Bool-cases (p x)) [
          | inl e ↦ rw e (elim k [
            | inl miss ↦ absurd (Bool-no_conf (named x e) miss)
            | inr same ↦ inr (ap f same)
          ])
          | inr e ↦ rw e (elim k [ inl miss ↦ inl miss | inr same ↦ absurd (cc (same, e, h)) ])
        ])
        ks row.only;
}

-- The row of the key, appended where there was none.
pub SoleRow-append :
    (tenant_id : ℕ) (key : Runes) (ks : Keys) (r : KeyRow)
    → at_key tenant_id key r ≡ true
    → find (at_key tenant_id key) ks ≡ none
    → SoleRow tenant_id key r (ks ++ r ∷ [])
SoleRow-append tenant_id key ks r h fresh = record {
  there = find-append (at_key tenant_id key) ks (r ∷ []) fresh ∙ ground (arith, h);
  only =
      All-append _ ks (r ∷ [])
        (All-imp _ (λ x e. inl e) ks (find-none-All (at_key tenant_id key) ks fresh))
        (inr refl, tt);
}

module _ (st : KeyStore) (auth : Authorized) (key : Runes) where
  -- The primary key: a row that is found is the only one.
  pub found_row :
      (ks : Keys) (r : KeyRow)
      → count (at_key auth.scope.id key) ks ≤ 1
      → find (at_key auth.scope.id key) ks ≡ some r
      → SoleRow auth.scope.id key r ks
  found_row ks r single e = record {
    there = e;
    only = lone_row (at_key auth.scope.id key) ks r single e;
  }

  module _ (ks : Keys) (r : KeyRow) (row : SoleRow auth.scope.id key r ks) where
    -- A WHERE clause on the key that the row does not satisfy selects nothing.
    missed :
        (q : KeyRow → Bool)
        → q r ≡ false
        → All (λ x. (at_key auth.scope.id key x && q x) ≡ false) ks
    missed q h =
        All-imp _
          (λ x k. elim k [
            | inl e ↦ ground (arith, e)
            | inr e ↦ let no_match : q x ≡ false = cc (h, e) in ground (arith, no_match)
          ])
          ks row.only

    pub insert_claim-taken : (fp now : ℕ) → insert_claim st auth key fp now ks ≡ (false, ks)
    unfolding insert_claim
    insert_claim-taken fp now = ground (arith, row.there)

    pub clear_expired-kept :
        (now : ℕ) → is_expired now r ≡ false → clear_expired auth key now ks ≡ (false, ks)
    unfolding clear_expired
    clear_expired-kept now h =
        let none_found = find-All-none _ ks (missed (is_expired now) h) in
        let all_kept =
          select-All (λ x. not (at_key auth.scope.id key x && is_expired now x)) ks
            (All-imp _ (λ x k. ground (arith, k)) ks (missed (is_expired now) h)) in
        ground (arith, none_found, all_kept)

    found_by :
        (q : KeyRow → Bool) → q r ≡ true → find (λ x. at_key auth.scope.id key x && q x) ks ≡ some r
    found_by q h =
        let named = find-eq-some (at_key auth.scope.id key) ks r row.there in
        find-narrow (λ x. at_key auth.scope.id key x && q x) (at_key auth.scope.id key)
          (λ x k. ground (arith, k)) ks r row.there (ground (arith, named, h))

    -- An expired row is removed.
    pub clear_expired-cleared :
        (now : ℕ)
        → is_expired now r ≡ true
        → ((clear_expired auth key now ks).0 ≡ true)
          × (find (at_key auth.scope.id key) (clear_expired auth key now ks).1 ≡ none)
    unfolding clear_expired
    clear_expired-cleared now h =
        let found = found_by (is_expired now) h in
        (
          ground (arith, found),
          find-select-none (at_key auth.scope.id key) _ ks (
              All-imp _
                (λ x k. elim k [
                  | inl e ↦ ground (arith, e)
                  | inr e ↦ let gone : is_expired now x ≡ true = cc (h, e) in ground (arith, gone)
                ])
                ks row.only),
        )

    pub take_over-stale :
        (fp now : ℕ)
        → is_stale st.lease now r ≡ true
        → ((take_over st auth key fp now ks).0 ≡ true)
          × SoleRow auth.scope.id key (retaken st auth fp now r) (take_over st auth key fp now ks).1
    unfolding take_over
    take_over-stale fp now h =
        let found = found_by (is_stale st.lease now) h in
        (
          ground (arith, found),
          SoleRow-update (λ x. at_key auth.scope.id key x && is_stale st.lease now x)
              (retaken st auth fp now) auth.scope.id key (λ x. refl) (λ x k. ground (arith, k)) ks r
              row (find-eq-some _ ks r found),
        )

    -- A claim within its lease is not taken over.
    pub take_over-fresh :
        (fp now : ℕ) → is_stale st.lease now r ≡ false → (take_over st auth key fp now ks).0 ≡ false
    unfolding take_over
    take_over-fresh fp now h =
        let none_found = find-All-none _ ks (missed (is_stale st.lease now) h) in
        ground (arith, none_found)
