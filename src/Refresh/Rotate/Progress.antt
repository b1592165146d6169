-- ===== src/Refresh/Rotate/Progress.antt =====
-- A session goes on from one rotation to the next (Rotate of internal/authn/refresh.go).
use mathlib.Core.Path.{subst}
use mathlib.Core.Option
use tenant_api_platform.Prelude.{
  ℕ, ◌+◌, true, false, ◌&&◌, ok, none, some, Option-cases, [], ◌∷◌, ◌++◌, ◌≡◌, refl, sym, ◌∙◌, ap,
  arith, inl, inr, ==_iff, find, ltb, update, find-update, find-eq-some, find-narrow, find-none_of,
  ==_refl,
}
use tenant_api_platform.Prelude.Int64.{ℤ}
use tenant_api_platform.Prelude.Runes.{Runes}
use tenant_api_platform.Audit.{is_empty}
use tenant_api_platform.Refresh.Tables.{
  Family, Token, Sessions, insert_token, has_family, has_hash, own_family,
}
use tenant_api_platform.Refresh.Store.{RefreshStore, Clocks, secret_text, positive_ttl}
use tenant_api_platform.Refresh.Rotate.{
  issued, claimable, consume, link, successor, rotate_read, rotate_write, mint, rotate_tx, rotate,
  rotated,
}

-- What an insertion of a row that breaks no constraint does.
inserts :
    (t : Token) (s : Sessions) (f : Family)
    → find (has_hash t.token_hash) s.tokens ≡ none
    → find (has_family t.family_id) s.families ≡ some f
    → ltb t.issued_at t.expires_at ≡ true
    → insert_token t s ≡ ok (tt, record s { tokens = s.tokens ++ t ∷ [] })
unfolding insert_token
inserts t s f fresh exists timely = ground (arith, fresh, exists, timely)

module _ (st : RefreshStore) (c : Clocks) (revoke_now : ℕ) (text presented : Runes) (ttl : ℤ)
    (lifetime : ℕ) (s : Sessions) (t : Token) (g : Family) where
  mints :
      (f : Family)
      → find (has_hash (st.hash (secret_text text))) s.tokens ≡ none
      → find (has_family t.family_id) s.families ≡ some f
      → ltb c.db_now (c.later + lifetime) ≡ true
      → (s' : Sessions) × (mint st c lifetime text t s
          ≡ ok (
            issued (record {
              refresh_token = secret_text text;
              user_id = t.user_id;
              expires_at = c.later + lifetime;
            }),
            s',
          ))
  unfolding mint
  mints f fresh exists timely =
      let done =
        inserts (successor st c lifetime text t)
          (record s { tokens = update (claimable t.token_hash) (consume c.db_now) s.tokens }) f
          (find-update (claimable t.token_hash) (consume c.db_now)
              (has_hash (st.hash (secret_text text))) (λ x. refl) s.tokens
            ∙ ap (Option.map _) fresh)
          exists timely in
      let rows = update (has_hash t.token_hash) (link (st.hash (secret_text text))) (
        update (claimable t.token_hash) (consume c.db_now) s.tokens
        ++ successor st c lifetime text t ∷ []) in
      (record { families = s.families; tokens = rows }, rw done refl)

  -- A token that is unconsumed, has not expired and belongs to a live session is rotated.
  pub rotate-proceeds :
      is_empty presented ≡ false
      → positive_ttl ttl ≡ some lifetime
      → find (has_hash (st.hash presented)) s.tokens ≡ some t
      → t.consumed_at ≡ none
      → find (λ f. own_family t.user_id f && has_family t.family_id f) s.families ≡ some g
      → g.revoked_at ≡ none
      → ltb c.now t.expires_at ≡ true
      → find (has_hash (st.hash (secret_text text))) s.tokens ≡ none
      → ltb c.db_now (c.later + lifetime) ≡ true
      → (rotate st c revoke_now (ok text) presented ttl s).0
        ≡ rotated (record {
          refresh_token = secret_text text;
          user_id = t.user_id;
          expires_at = c.later + lifetime;
        })
  unfolding rotate rotate_tx rotate_read rotate_write
  rotate-proceeds full positive there unused owned live early fresh timely =
      let key : t.token_hash ≡ st.hash presented =
        (==_iff _ _).0 (find-eq-some (has_hash (st.hash presented)) s.tokens t there) in
      let found : find (claimable t.token_hash) s.tokens ≡ some t =
        find-narrow (claimable t.token_hash) (has_hash t.token_hash) (λ x h. ground arith) s.tokens
          t (subst (λ n. find (has_hash n) s.tokens ≡ some t) (sym key) there)
          (ground (arith, unused, ==_refl t.token_hash)) in
      elim (Option-cases (find (has_family t.family_id) s.families)) [
        | inl missing ↦ cc (
          owned,
          find-none_of (λ f. own_family t.user_id f && has_family t.family_id f)
              (has_family t.family_id) (λ f h. ground arith) s.families missing,
        )
        | inr (f, exists) ↦
            let (s', minted) = mints f fresh exists timely in
            ground (arith, full, positive, there, unused, owned, live, early, found, minted)
      ]
