-- ===== src/Refresh/Steps/Single.antt =====
-- A refresh token is used once, and a replay ends its session (Rotate of internal/authn/refresh.go).
use mathlib.Core.Path.{subst}
use tenant_api_platform.Prelude.{
  ℕ, Result, ok, none, some, ◌≡◌, ◌≢◌, sym, ==_iff, find, find-eq-some,
}
use tenant_api_platform.Prelude.Int64.{ℤ}
use tenant_api_platform.Prelude.Runes.{Runes}
use tenant_api_platform.Refresh.Tables.{Token, Sessions, has_hash}
use tenant_api_platform.Refresh.Store.{RefreshStore, Clocks, TokenPair}
use tenant_api_platform.Refresh.Rotate.{
  refused, refresh_retry_race, claimable, rotate_write, rotate, rotated,
}
use tenant_api_platform.Refresh.Rotate.Minted.{Minted-there, Minted-none, lost_race}
use tenant_api_platform.Refresh.Rotate.Rotated.{rotate-Rotated}
use tenant_api_platform.Refresh.Steps.{Running, Reach}
use tenant_api_platform.Refresh.Steps.Spent.{Spent, Reach-Spent}

-- Nothing is issued for a token that was spent.
rotate-Spent :
    (st : RefreshStore) (c : Clocks) (revoke_now : ℕ) (random : Result Runes) (presented : Runes)
    (ttl : ℤ) (s : Sessions) (pair : TokenPair)
    → Spent (st.hash presented) s.tokens
    → (rotate st c revoke_now random presented ttl s).0 ≢ rotated pair
rotate-Spent st c revoke_now random presented ttl s pair spent h =
    let r = rotate-Rotated st c revoke_now random presented ttl s pair h in
    let key : r.token.token_hash ≡ st.hash presented =
      (==_iff _ _).0 (find-eq-some (has_hash (st.hash presented)) s.tokens r.token r.there) in
    let found = subst (λ n. find (claimable n) s.tokens ≡ some r.minted.row) key r.minted.found in
    cc (found, spent.gone)

module _ (st : RefreshStore) (c : Clocks) (revoke_now : ℕ) (random : Result Runes)
    (presented : Runes) (ttl : ℤ) (x : Running) where
  abbrev pub after_rotate : Running
  after_rotate = record {
    tables = (rotate st c revoke_now random presented ttl x.tables).1;
    reads = x.reads;
  }

  rotated-Spent :
      (pair : TokenPair)
      → (rotate st c revoke_now random presented ttl x.tables).0 ≡ rotated pair
      → Spent (st.hash presented) after_rotate.tables.tokens
  rotated-Spent pair h =
      let r = rotate-Rotated st c revoke_now random presented ttl x.tables pair h in
      let key : r.token.token_hash ≡ st.hash presented =
        (==_iff _ _).0
          (find-eq-some (has_hash (st.hash presented)) x.tables.tokens r.token r.there) in
      let (row, there) =
        Minted-there st c r.lifetime r.text r.token pair x.tables _ r.minted (st.hash presented)
          r.token r.there in
      record {
        row = row;
        there = there;
        gone =
            subst (λ n. find (claimable n) after_rotate.tables.tokens ≡ none) key
              (Minted-none st c r.lifetime r.text r.token pair x.tables _ r.minted);
      }

  -- A refresh token is used once. After a Rotate that returned a pair, and whatever other requests
  -- do in between and however their transactions interleave, presenting the same token returns no
  -- pair, and a request that had read the token before, and goes on to write, is told of a
  -- concurrent retry and changes nothing.
  pub rotate-once :
      (pair : TokenPair)
      → (rotate st c revoke_now random presented ttl x.tables).0 ≡ rotated pair
      → (y : Running) → Reach st after_rotate y
      → (c' : Clocks) (revoke_now' lifetime' : ℕ) (text' : Runes) (ttl' : ℤ) (pair' : TokenPair)
      → (t : Token) → t.token_hash ≡ st.hash presented
      → ((rotate st c' revoke_now' (ok text') presented ttl' y.tables).0 ≢ rotated pair')
        × (rotate_write st c' lifetime' (ok text') t y.tables
            ≡ ok (refused refresh_retry_race, y.tables))
  rotate-once pair h y reach c' revoke_now' lifetime' text' ttl' pair' t key =
      let spent = Reach-Spent st (st.hash presented) after_rotate y reach (rotated-Spent pair h) in
      (
        rotate-Spent st c' revoke_now' (ok text') presented ttl' y.tables pair' spent,
        lost_race st c' lifetime' text' t y.tables
            (subst (λ n. find (claimable n) y.tables.tokens ≡ none) (sym key) spent.gone),
      )
