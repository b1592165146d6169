-- ===== src/Refresh/Rotate/Minted.antt =====
-- What a rotation that issued a successor has done (internal/authn/refresh.go).
use mathlib.Core.Option
use mathlib.Core.Path.{subst}
use tenant_api_platform.Prelude.{
  find-none_of, find-append-some, if◌then◌else◌, find-update, ℕ, true, false, Result, ok, err, none,
  some, Option-cases, [], ◌∷◌, ◌++◌, ◌≡◌, refl, ◌∙◌, ap, arith, inl, inr, ◌⊎◌, ltb, ◌+◌, find,
  update, Bool-cases, find-update-none, find-append, ==_iff,
}
use tenant_api_platform.Prelude.Runes.{Runes}
use tenant_api_platform.Db.Laws.{continue-eq-ok}
use tenant_api_platform.Refresh.Tables.{Family, Token, Sessions, has_family, has_hash, insert_token}
use tenant_api_platform.Refresh.Tables.Laws.{insert_token-Inserted}
use tenant_api_platform.Refresh.Store.{RefreshStore, Clocks, TokenPair, secret_text}
use tenant_api_platform.Refresh.Rotate.{
  Verdict, issued, refused, refresh_retry_race, claimable, consume, link, successor, mint,
  rotate_write,
}

-- A rotation that issued a successor: the row that it consumed, and what became of the tables.
pub record Minted (st : RefreshStore) (c : Clocks) (ttl : ℕ) (text : Runes) (t : Token)
    (pair : TokenPair) (s s' : Sessions) : Type 0 where
  pub row : Token
  pub found : find (claimable t.token_hash) s.tokens ≡ some row
  pub result :
      pair
      ≡ record { refresh_token = secret_text text; user_id = t.user_id; expires_at = c.later + ttl }
  pub fresh :
      find
        (has_hash (st.hash (secret_text text)))
        (update (claimable t.token_hash) (consume c.db_now) s.tokens)
      ≡ none
  pub family : Family
  pub exists : find (has_family t.family_id) s.families ≡ some family
  pub timely : ltb c.db_now (c.later + ttl) ≡ true
  pub tokens :
      s'.tokens
      ≡ update (has_hash t.token_hash) (link (st.hash (secret_text text))) (
          update (claimable t.token_hash) (consume c.db_now) s.tokens
          ++ successor st c ttl text t ∷ [])
  pub families : s'.families ≡ s.families

abbrev consumed : Clocks → Token → Sessions → Sessions
consumed c t s = record s { tokens = update (claimable t.token_hash) (consume c.db_now) s.tokens }

module _ (st : RefreshStore) (c : Clocks) (ttl : ℕ) (t : Token) (s s' : Sessions) where
  -- An insertion that goes through makes the verdict.
  mint-issued :
      (text : Runes) (v : Verdict)
      → mint st c ttl text t s ≡ ok (v, s')
      → (pair : TokenPair) × (v ≡ issued pair)
  unfolding mint
  mint-issued text v h =
      let ((u, s1), inserted, rest) =
        continue-eq-ok (insert_token (successor st c ttl text t) (consumed c t s)) _ h in
      (
        record {
          refresh_token = secret_text text;
          user_id = t.user_id;
          expires_at = c.later + ttl;
        },
        cc rest,
      )

  -- The writing half either issues a successor or changes nothing.
  pub rotate_write-cases :
      (random : Result Runes) (v : Verdict)
      → rotate_write st c ttl random t s ≡ ok (v, s')
      → ((p : TokenPair) × (v ≡ issued p)) ⊎ ((v ≡ refused refresh_retry_race) × (s' ≡ s))
  unfolding rotate_write
  rotate_write-cases (err e) v h = cc
  rotate_write-cases (ok text) v h = elim (Option-cases (find (claimable t.token_hash) s.tokens)) [
    | inl lost ↦ inr (ground arith, ground arith)
    | inr (row, found) ↦ inl (mint-issued text v (ground arith))
  ]

module _ (st : RefreshStore) (c : Clocks) (ttl : ℕ) (t : Token) (pair : TokenPair)
    (s s' : Sessions) where
  mint-Minted :
      (text : Runes) (row : Token)
      → find (claimable t.token_hash) s.tokens ≡ some row
      → mint st c ttl text t s ≡ ok (issued pair, s')
      → Minted st c ttl text t pair s s'
  unfolding mint
  mint-Minted text row found h =
      let ((u, s1), inserted, rest) =
        continue-eq-ok (insert_token (successor st c ttl text t) (consumed c t s)) _ h in
      let i = insert_token-Inserted (successor st c ttl text t) (consumed c t s) s1 inserted in
      record {
        row = row;
        found = found;
        result = ground arith;
        fresh = i.fresh;
        family = i.family;
        exists = i.exists;
        timely = i.timely;
        tokens = cc (rest, i.tokens);
        families = cc (rest, i.families);
      }

  pub rotate_write-Minted :
      (random : Result Runes)
      → rotate_write st c ttl random t s ≡ ok (issued pair, s')
      → (text : Runes) × (random ≡ ok text) × Minted st c ttl text t pair s s'
  unfolding rotate_write
  rotate_write-Minted (err e) h = cc
  rotate_write-Minted (ok text) h = elim (Option-cases (find (claimable t.token_hash) s.tokens)) [
    | inl lost ↦ absurd (ground arith)
    | inr (row, found) ↦ (text, refl, mint-Minted text row found (ground arith))
  ]

-- The row that was consumed cannot be consumed again.
module _ (st : RefreshStore) (c : Clocks) (ttl : ℕ) (text : Runes) (t : Token) (pair : TokenPair)
    (s s' : Sessions) (m : Minted st c ttl text t pair s s') where
  -- The successor's hash was not in the table.
  pub Minted-fresh : find (has_hash (st.hash (secret_text text))) s.tokens ≡ none
  Minted-fresh = elim (Option-cases (find (has_hash (st.hash (secret_text text))) s.tokens)) [
    | inl e ↦ e
    | inr (x, e) ↦ cc (
      e,
      m.fresh,
      find-update (claimable t.token_hash) (consume c.db_now)
          (has_hash (st.hash (secret_text text))) (λ x. refl) s.tokens,
    )
  ]

  pub other_hash : has_hash t.token_hash (successor st c ttl text t) ≡ false
  other_hash = elim (Bool-cases (has_hash t.token_hash (successor st c ttl text t))) [
    | inl e ↦
        let same : st.hash (secret_text text) ≡ t.token_hash = (==_iff _ _).0 e in
        let gone =
          find-none_of (claimable t.token_hash) (has_hash t.token_hash) (λ x h. ground arith)
            s.tokens (subst (λ k. find (has_hash k) s.tokens ≡ none) (same) Minted-fresh) in
        cc (gone, m.found)
    | inr e ↦ e
  ]

  pub Minted-none : find (claimable t.token_hash) s'.tokens ≡ none
  Minted-none =
      let claimed = update (claimable t.token_hash) (consume c.db_now) s.tokens in
      let gone : find (claimable t.token_hash) claimed ≡ none =
        find-update-none (claimable t.token_hash) (consume c.db_now) (claimable t.token_hash)
          (λ x h. ground arith) (λ x h. h) s.tokens in
      let miss : find (claimable t.token_hash) (successor st c ttl text t ∷ []) ≡ none =
        ground (arith, other_hash) in
      ap (find (claimable t.token_hash)) m.tokens
      ∙ find-update (has_hash t.token_hash) (link (st.hash (secret_text text)))
          (claimable t.token_hash) (λ x. refl) (claimed ++ successor st c ttl text t ∷ [])
      ∙ ap (Option.map _) (find-append (claimable t.token_hash) claimed _ gone ∙ miss)

  -- A hash that was in the table still is.
  pub Minted-there :
      (hash : ℕ) (row : Token)
      → find (has_hash hash) s.tokens ≡ some row
      → (row' : Token) × (find (has_hash hash) s'.tokens ≡ some row')
  Minted-there hash row there =
      let used = if claimable t.token_hash row then consume c.db_now row else row in
      let claimed : find (has_hash hash)
            (update (claimable t.token_hash) (consume c.db_now) s.tokens)
          ≡ some used =
        find-update (claimable t.token_hash) (consume c.db_now) (has_hash hash) (λ x. refl) s.tokens
        ∙ ap (Option.map _) there in
      (
        _,
        ap (find (has_hash hash)) m.tokens
            ∙ find-update (has_hash t.token_hash) (link (st.hash (secret_text text)))
                (has_hash hash) (λ x. refl) _
            ∙ ap (Option.map _) (find-append-some (has_hash hash) _ _ used claimed),
      )

pub lost_race :
    (st : RefreshStore) (c : Clocks) (ttl : ℕ) (text : Runes) (t : Token) (s : Sessions)
    → find (claimable t.token_hash) s.tokens ≡ none
    → rotate_write st c ttl (ok text) t s ≡ ok (refused refresh_retry_race, s)
unfolding rotate_write
lost_race st c ttl text t s e = ground arith
