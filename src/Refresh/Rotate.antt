-- ===== src/Refresh/Rotate.antt =====
-- internal/authn/refresh.go: Rotate, and RevokeByPresentedToken, which find a session by a secret.
--
-- The closure of Rotate reads and then writes: `rotate_write` starts from a row that was read, so a
-- statement about it at any tables is one about what other transactions commit in between.
pub mod Minted
pub mod Rotated
pub mod Succession
pub mod Progress
use tenant_api_platform.Prelude.{
  ℕ, ◌+◌, ◌-◌, Bool, true, false, not, ◌&&◌, ◌||◌, Result, ok, err, Err, internal, validation,
  Option, none, some, List, [], ◌∷◌, ltb, leb, ◌==◌, if◌then◌else◌, find, update,
}
use tenant_api_platform.Prelude.Int64.{ℤ}
use tenant_api_platform.Prelude.Runes.{Runes, runes}
use tenant_api_platform.Audit.{is_some, is_empty}
use tenant_api_platform.Db.{Tx, finish, pure, fail, gets, modify, lift, ◌>>=◌, ◌>>◌}
use tenant_api_platform.Refresh.Tables.{
  Family, Token, Sessions, own_family, has_family, has_hash, is_unconsumed, insert_token, new_token,
  revoke_where,
}
use tenant_api_platform.Refresh.Store.{
  RefreshStore, Clocks, TokenPair, secret_text, positive_ttl, revoke_family,
}

-- The variable `failure`.
pub data Failure : Type 0 where
  refresh_unknown refresh_revoked refresh_expired refresh_retry_race : Failure

-- What the closure leaves in its variables: `out`, `failure` or the reuse.
pub data Verdict : Type 0 where
  issued : TokenPair → Verdict
  refused : Failure → Verdict
  replayed : ℕ → ℕ → Verdict

-- What is read before anything is written: a verdict, or the row to be consumed.
pub data Reading : Type 0 where
  decided : Verdict → Reading
  unconsumed : Token → Reading

-- now() - consumed_at <= grace; two clocks that ran backwards are within it.
abbrev pub consumed_recently : ℕ → ℕ → ℕ → Bool
consumed_recently grace db_now consumed_at = leb (db_now - consumed_at) grace

abbrev pub read_consumed : RefreshStore → Clocks → Token → Option ℕ → Reading
read_consumed st c t none = unconsumed t
read_consumed st c t (some at) =
    if consumed_recently st.grace c.db_now at
    then decided (refused refresh_retry_race)
    else decided (replayed t.user_id t.family_id)

abbrev pub read_family : RefreshStore → Clocks → Token → Option Family → Reading
read_family st c t none = decided (refused refresh_unknown)
read_family st c t (some f) =
    if is_some f.revoked_at
    then decided (refused refresh_revoked)
    else if not (ltb c.now t.expires_at)
    then decided (refused refresh_expired)
    else read_consumed st c t t.consumed_at

abbrev pub read_token : RefreshStore → Clocks → Sessions → Option Token → Reading
read_token st c s none = decided (refused refresh_unknown)
read_token st c s (some t) =
    read_family st c t (find (λ f. own_family t.user_id f && has_family t.family_id f) s.families)

-- The two SELECTs and the tests that follow them.
unfoldable pub rotate_read : RefreshStore → Clocks → ℕ → Sessions → Reading
rotate_read st c hash s = read_token st c s (find (has_hash hash) s.tokens)

-- WHERE token_hash = $1 AND consumed_at IS NULL.
abbrev pub claimable : ℕ → Token → Bool
claimable hash t = has_hash hash t && is_unconsumed t

abbrev pub consume : ℕ → Token → Token
consume db_now t = record t { consumed_at = some db_now }

abbrev pub link : ℕ → Token → Token
link successor t = record t { replaced_by = some successor }

-- The successor's row.
abbrev pub successor : RefreshStore → Clocks → ℕ → Runes → Token → Token
successor st c ttl random t =
    new_token (st.hash (secret_text random)) t.family_id t.user_id c.db_now (c.later + ttl)

-- The successor is inserted, and the consumed row points at it.
unfoldable pub mint : RefreshStore → Clocks → ℕ → Runes → Token → Tx Sessions Verdict
mint st c ttl random t = do
  modify (λ s. record s { tokens = update (claimable t.token_hash) (consume c.db_now) s.tokens })
  insert_token (successor st c ttl random t)
  modify (λ s. record s {
    tokens = update (has_hash t.token_hash) (link (st.hash (secret_text random))) s.tokens;
  })
  pure (
      issued (record {
        refresh_token = secret_text random;
        user_id = t.user_id;
        expires_at = c.later + ttl;
      }))

-- The conditional UPDATE: zero rows are a lost race.
abbrev pub claim_or : Tx Sessions Verdict → Option Token → Tx Sessions Verdict
claim_or next none = pure (refused refresh_retry_race)
claim_or next (some t) = next

unfoldable pub rotate_write : RefreshStore → Clocks → ℕ → Result Runes → Token → Tx Sessions Verdict
rotate_write st c ttl random t = do
  text ← lift random
  row ← gets (λ s. find (claimable t.token_hash) s.tokens)
  claim_or (mint st c ttl text t) row

abbrev rotate_on : RefreshStore → Clocks → ℕ → Result Runes → Reading → Tx Sessions Verdict
rotate_on st c ttl random (decided v) = pure v
rotate_on st c ttl random (unconsumed t) = rotate_write st c ttl random t

unfoldable pub rotate_tx : RefreshStore → Clocks → ℕ → Result Runes → ℕ → Tx Sessions Verdict
rotate_tx st c ttl random hash s = rotate_on st c ttl random (rotate_read st c hash s) s

-- What Rotate returns. `reused` carries the outcome of the revocation.
pub data Rotation : Type 0 where
  rotated : TokenPair → Rotation
  failed : Failure → Rotation
  reused : ℕ → ℕ → Result (Unit {0}) → Rotation
  broken : Err → Rotation

abbrev pub reuse_reason : Runes
reuse_reason = runes "refresh token reused outside grace window"

-- A detected replay revokes the family in a transaction of its own, which starts at `revoke_now`.
abbrev pub conclude : ℕ → Result Verdict × Sessions → Rotation × Sessions
conclude revoke_now (err e, s) = (broken e, s)
conclude revoke_now (ok (issued pair), s) = (rotated pair, s)
conclude revoke_now (ok (refused f), s) = (failed f, s)
conclude revoke_now (ok (replayed user_id family_id), s) =
    let revocation = revoke_family user_id family_id reuse_reason revoke_now s in
    (reused user_id family_id revocation.0, revocation.1)

abbrev rotate_checked :
    RefreshStore → Clocks → ℕ → Result Runes → Runes → Option ℕ → Sessions → Rotation × Sessions
rotate_checked st c revoke_now random presented none s = (broken validation, s)
rotate_checked st c revoke_now random presented (some ttl) s =
    conclude revoke_now (finish s (rotate_tx st c ttl random (st.hash presented) s))

-- The method Rotate.
unfoldable pub rotate :
    RefreshStore → Clocks → ℕ → Result Runes → Runes → ℤ → Sessions → Rotation × Sessions
rotate st c revoke_now random presented ttl s =
    if is_empty presented
    then (failed refresh_unknown, s)
    else rotate_checked st c revoke_now random presented (positive_ttl ttl) s

abbrev revoke_found : Runes → ℕ → Sessions → Option Token → Option Failure × Sessions
revoke_found reason db_now s none = (some refresh_unknown, s)
revoke_found reason db_now s (some t) =
    (none, revoke_where (has_family t.family_id) t.user_id db_now reason s)

-- The method RevokeByPresentedToken.
unfoldable pub revoke_by_presented_token :
    RefreshStore → Runes → Runes → ℕ → Sessions → Option Failure × Sessions
revoke_by_presented_token st presented reason db_now s =
    if is_empty presented
    then (some refresh_unknown, s)
    else revoke_found reason db_now s (find (has_hash (st.hash presented)) s.tokens)
