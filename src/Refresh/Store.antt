-- ===== src/Refresh/Store.antt =====
-- internal/authn/refresh.go: sessions begun, revoked and counted.
--
-- The hash of a token is a parameter. What a call draws from outside are its arguments: the readings
-- of the application's clock, the database's now(), the identifier of a new family and the encoded
-- random bytes of a new token (or the failure of the random source).
pub mod Laws
use tenant_api_platform.Prelude.{
  ℕ, zero, suc, ◌+◌, Bool, true, false, not, ◌&&◌, ◌||◌, Result, ok, err, Err, internal,
  unauthorized, validation, Option, none, some, List, [], ◌∷◌, ◌++◌, ◌==◌, if◌then◌else◌, find,
  select, length,
}
use tenant_api_platform.Prelude.Int64.{ℤ, pos, negsuc}
use tenant_api_platform.Prelude.Runes.{Runes, runes}
use tenant_api_platform.Db.{
  Tx, Identity, finish, pure, fail, check, gets, modify, with_identity_tx, ◌>>=◌, ◌>>◌,
}
use tenant_api_platform.Refresh.Tables.{
  Sessions, Token, own_family, has_family, has_hash, is_live, insert_family, insert_token,
  new_token, revoke_where,
}

-- RefreshStore, with the hash it calls. `grace` is in nanoseconds.
pub record RefreshStore : Type 0 where
  pub hash : Runes → ℕ
  pub grace : ℕ

-- The two readings of the application's clock, in order, and the start of the transaction.
pub record Clocks : Type 0 where
  pub now : ℕ
  pub later : ℕ
  pub db_now : ℕ

pub record TokenPair : Type 0 where
  pub refresh_token : Runes
  pub user_id : ℕ
  pub expires_at : ℕ

-- Identity{UserID: userID}.
abbrev pub user_identity : ℕ → Identity
user_identity user_id = record { tenant_id = 0; user_id = user_id }

-- The plaintext of newRefreshSecret.
unfoldable pub secret_text : Runes → Runes
secret_text random = runes "rt_" ++ random

-- A duration that must be positive.
unfoldable pub positive_ttl : ℤ → Option ℕ
positive_ttl (pos zero) = none
positive_ttl (pos (suc n)) = some (suc n)
positive_ttl (negsuc n) = none

unfoldable pub start_tx : ℕ → ℕ → Token → Tx Sessions (Unit {0})
start_tx family_id user_id t = do insert_family family_id user_id; insert_token t

abbrev pub paired : TokenPair → Result (Unit {0}) × Sessions → Result TokenPair × Sessions
paired pair (ok u, s) = (ok pair, s)
paired pair (err e, s) = (err e, s)

abbrev start_checked :
    RefreshStore → Clocks → ℕ → Result Runes → ℕ → Option ℕ → Sessions → Result TokenPair × Sessions
start_checked st c family_id random user_id none s = (err validation, s)
start_checked st c family_id (err e) user_id (some ttl) s = (err e, s)
start_checked st c family_id (ok r) user_id (some ttl) s =
    paired (record { refresh_token = secret_text r; user_id = user_id; expires_at = c.now + ttl })
      (with_identity_tx (user_identity user_id)
        (start_tx family_id user_id
          (new_token (st.hash (secret_text r)) family_id user_id c.db_now (c.now + ttl)))
        s)

-- The method StartSession.
unfoldable pub start_session :
    RefreshStore → Clocks → ℕ → Result Runes → ℕ → ℤ → Sessions → Result TokenPair × Sessions
start_session st c family_id random user_id ttl s =
    if user_id == 0
    then (err unauthorized, s)
    else start_checked st c family_id random user_id (positive_ttl ttl) s

-- The method RevokeFamily. Rows of other users are invisible to the statement.
unfoldable pub revoke_family : ℕ → ℕ → Runes → ℕ → Sessions → Result (Unit {0}) × Sessions
revoke_family user_id family_id reason db_now s =
    if user_id == 0 || family_id == 0
    then (err unauthorized, s)
    else with_identity_tx (user_identity user_id)
        (modify (revoke_where (has_family family_id) user_id db_now reason)) s

-- WHERE user_id = $1 AND revoked_at IS NULL, as far as the policy shows it.
unfoldable pub live_sessions : ℕ → Sessions → ℕ
live_sessions user_id s =
    length (select (λ f. own_family user_id f && own_family user_id f && is_live f) s.families)

-- The method RevokeAllForUser: how many rows the UPDATE affected.
unfoldable pub revoke_all_for_user : ℕ → Runes → ℕ → Sessions → Result ℕ × Sessions
revoke_all_for_user user_id reason db_now s =
    if user_id == 0
    then (err unauthorized, s)
    else with_identity_tx (user_identity user_id)
        (do
          revoked ← gets (live_sessions user_id)
          modify (revoke_where (own_family user_id) user_id db_now reason)
          pure revoked)
        s

-- The method CountLiveSessions.
unfoldable pub count_live_sessions : ℕ → Sessions → Result ℕ × Sessions
count_live_sessions user_id s =
    if user_id == 0
    then (err unauthorized, s)
    else with_identity_tx (user_identity user_id) (gets (live_sessions user_id)) s
