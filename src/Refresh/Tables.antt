-- ===== src/Refresh/Tables.antt =====
-- The tables refresh_families and refresh_tokens of internal/platform/migrations/0002_auth.sql, with
-- their keys, constraints and row-level security as the statements of refresh.go meet them.
--
-- `Digest`, the hex SHA-256 of a token, is a number.
pub mod Laws
use tenant_api_platform.Prelude.{
  ℕ, Bool, true, false, not, ◌&&◌, Result, internal, Option, none, some, List, [], ◌∷◌, ◌++◌, ltb,
  ◌==◌, if◌then◌else◌, find, update,
}
use tenant_api_platform.Prelude.Runes.{Runes}
use tenant_api_platform.Audit.{is_some}
use tenant_api_platform.Db.{Tx, check, gets, modify, ◌>>=◌, ◌>>◌}

pub record Family : Type 0 where
  pub id : ℕ
  pub user_id : ℕ
  pub revoked_at : Option ℕ
  pub revoked_reason : Option Runes

pub record Token : Type 0 where
  pub token_hash : ℕ
  pub family_id : ℕ
  pub user_id : ℕ
  pub issued_at : ℕ
  pub expires_at : ℕ
  pub consumed_at : Option ℕ
  pub replaced_by : Option ℕ

pub record Sessions : Type 0 where
  pub families : List Family
  pub tokens : List Token

-- The policy refresh_families_own_rows.
abbrev pub own_family : ℕ → Family → Bool
own_family user_id f = f.user_id == user_id

abbrev pub has_family : ℕ → Family → Bool
has_family id f = f.id == id

abbrev pub has_hash : ℕ → Token → Bool
has_hash hash t = t.token_hash == hash

abbrev pub is_live : Family → Bool
is_live f = not (is_some f.revoked_at)

abbrev pub is_unconsumed : Token → Bool
is_unconsumed t = not (is_some t.consumed_at)

-- INSERT INTO refresh_families, under the identity of `user_id`: the primary key.
unfoldable pub insert_family : ℕ → ℕ → Tx Sessions (Unit {0})
insert_family id user_id = do
  clash ← gets (λ s. find (has_family id) s.families)
  check (not (is_some clash)) internal
  modify (λ s. record s {
    families =
        s.families
        ++ record { id = id; user_id = user_id; revoked_at = none; revoked_reason = none } ∷ [];
  })

abbrev pub new_token : ℕ → ℕ → ℕ → ℕ → ℕ → Token
new_token hash family_id user_id issued_at expires_at = record {
  token_hash = hash;
  family_id = family_id;
  user_id = user_id;
  issued_at = issued_at;
  expires_at = expires_at;
  consumed_at = none;
  replaced_by = none;
}

-- INSERT INTO refresh_tokens: the primary key, the foreign key to the family, and the CHECK that a
-- token expires after it was issued.
unfoldable pub insert_token : Token → Tx Sessions (Unit {0})
insert_token t = do
  clash ← gets (λ s. find (has_hash t.token_hash) s.tokens)
  check (not (is_some clash)) internal
  family ← gets (λ s. find (has_family t.family_id) s.families)
  check (is_some family) internal
  check (ltb t.issued_at t.expires_at) internal
  modify (λ s. record s { tokens = s.tokens ++ t ∷ [] })

-- The UPDATE of a revocation: of the rows that are live, visible to the user and selected.
unfoldable pub revoke_where : (Family → Bool) → ℕ → ℕ → Runes → Sessions → Sessions
revoke_where selected user_id now reason s = record s {
  families =
      update (λ f. own_family user_id f && selected f && is_live f)
        (λ f. record f { revoked_at = some now; revoked_reason = some reason }) s.families;
}
