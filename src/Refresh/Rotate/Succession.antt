-- ===== src/Refresh/Rotate/Succession.antt =====
-- A session goes on from one rotation to the next (Rotate of internal/authn/refresh.go).
use mathlib.Core.Path.{subst}
use mathlib.Core.Option
use tenant_api_platform.Prelude.{
  ℕ, ◌+◌, true, ◌&&◌, Result, ok, Option, none, some, Option-cases, [], ◌∷◌, ◌++◌, ◌≡◌, refl, sym,
  ◌∙◌, ap, arith, inl, inr, find, find-append, ltb, update, find-update, ==_refl,
}
use tenant_api_platform.Prelude.Int64.{ℤ}
use tenant_api_platform.Prelude.Runes.{Runes}
use tenant_api_platform.Refresh.Tables.{Family, Token, Sessions, has_family, has_hash, own_family}
use tenant_api_platform.Refresh.Store.{RefreshStore, Clocks, TokenPair, secret_text, positive_ttl}
use tenant_api_platform.Refresh.Rotate.{
  unconsumed, claimable, consume, link, successor, rotate, rotated, read_family,
}
use tenant_api_platform.Refresh.Rotate.Progress.{rotate-proceeds}
use tenant_api_platform.Refresh.Rotate.Rotated.{rotate-Rotated}
use tenant_api_platform.Refresh.Rotate.Minted.{other_hash, Minted}
use tenant_api_platform.Refresh.Rotate.Rotated.{read_token-found}

-- A row that is read for consumption belongs to a live session.
read_live :
    (st : RefreshStore) (c : Clocks) (t t' : Token) (g : Option Family)
    → read_family st c t g ≡ unconsumed t'
    → (t ≡ t') × ((f : Family) × (g ≡ some f) × (f.revoked_at ≡ none))
read_live st c t t' none h = cc
read_live st c t t' (some f) h = elim (Option-cases f.revoked_at) [
  | inl e ↦ (ground arith, (f, refl, e))
  | inr (at, e) ↦ absurd (ground (arith, e))
]

module _ (st : RefreshStore) (c : Clocks) (ttl : ℕ) (text : Runes) (t : Token) (pair : TokenPair)
    (s s' : Sessions) (m : Minted st c ttl text t pair s s') where
  -- The successor is in the table.
  successor_there :
      find (has_hash (st.hash (secret_text text))) s'.tokens ≡ some (successor st c ttl text t)
  successor_there =
      let claimed = update (claimable t.token_hash) (consume c.db_now) s.tokens in
      let last : find (has_hash (st.hash (secret_text text)))
            (claimed ++ successor st c ttl text t ∷ [])
          ≡ some (successor st c ttl text t) =
        find-append (has_hash (st.hash (secret_text text))) claimed _ m.fresh
        ∙ ground (arith, ==_refl (st.hash (secret_text text))) in
      ap (find (has_hash (st.hash (secret_text text)))) m.tokens
      ∙ find-update (has_hash t.token_hash) (link (st.hash (secret_text text)))
          (has_hash (st.hash (secret_text text))) (λ x. refl) _
      ∙ ap (Option.map _) last
      ∙ ground (arith, other_hash st c ttl text t pair s s' m)

module _ (st : RefreshStore) (c c' : Clocks) (revoke_now revoke_now' : ℕ) (random : Result Runes)
    (presented text' : Runes) (ttl ttl' : ℤ) (lifetime : ℕ) (s : Sessions) (pair : TokenPair) where
  -- The pair that a Rotate returned is good for another: presented before it expires, and with nothing
  -- done to the tables in between, its token is rotated in turn, for the same user, whatever the presented token and the clocks were, as long as
  -- the new secret's hash is not one in the table and its lifetime is positive and ends after the
  -- transaction began.
  pub rotate-continues :
      (rotate st c revoke_now random presented ttl s).0 ≡ rotated pair
      → ltb c'.now pair.expires_at ≡ true
      → positive_ttl ttl' ≡ some lifetime
      → ltb c'.db_now (c'.later + lifetime) ≡ true
      → find
          (has_hash (st.hash (secret_text text')))
          (rotate st c revoke_now random presented ttl s).1.tokens
        ≡ none
      → (rotate st c' revoke_now'
          (ok text')
          pair.refresh_token
          ttl'
          (rotate st c revoke_now random presented ttl s).1).0
        ≡ rotated (record {
          refresh_token = secret_text text';
          user_id = pair.user_id;
          expires_at = c'.later + lifetime;
        })
  unfolding secret_text
  rotate-continues h early positive timely fresh =
      let r = rotate-Rotated st c revoke_now random presented ttl s pair h in
      let s' = (rotate st c revoke_now random presented ttl s).1 in
      elim (read_token-found st c (st.hash presented) s _ r.reads) [
        | inl missing ↦ cc
        | inr (t, there, reads) ↦
            let (same, (g, owned, live)) = read_live st c t r.token _ reads in
            let owned' : find (λ f. own_family r.token.user_id f && has_family r.token.family_id f)
                  s'.families
                ≡ some g =
              ap (find (λ f. own_family r.token.user_id f && has_family r.token.family_id f))
                r.minted.families
              ∙ subst
                  (λ (k : Token).
                    find (λ f. own_family k.user_id f && has_family k.family_id f) s.families
                    ≡ some g)
                  (same) owned in
            let next =
              rotate-proceeds st c' revoke_now' text' (secret_text r.text) ttl' lifetime s'
                (successor st c r.lifetime r.text r.token) g refl positive
                (successor_there st c r.lifetime r.text r.token pair s s' r.minted) refl owned' live
                (cc (early, r.minted.result)) fresh timely in
            subst
              (λ (p : TokenPair).
                (rotate st c' revoke_now' (ok text') p.refresh_token ttl' s').0
                ≡ rotated (record {
                  refresh_token = secret_text text';
                  user_id = p.user_id;
                  expires_at = c'.later + lifetime;
                }))
              (sym r.minted.result) next
      ]
