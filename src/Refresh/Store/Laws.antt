-- ===== src/Refresh/Store/Laws.antt =====
-- Sessions revoked all at once (RevokeAllForUser of internal/authn/refresh.go).
use tenant_api_platform.Prelude.{
  ℕ, Bool, ◌&&◌, ok, some, ◌≡◌, ◌≢◌, ap, arith, select, update, length, find-update-none,
  select-eq-nil, select-update,
}
use tenant_api_platform.Prelude.Runes.{Runes}
use tenant_api_platform.Db.{with_identity_tx, identity_valid}
use tenant_api_platform.Refresh.Tables.{Family, Sessions, own_family, is_live, revoke_where}
use tenant_api_platform.Refresh.Store.{live_sessions, revoke_all_for_user, count_live_sessions}

module _ (user_id : ℕ) (reason : Runes) (now : ℕ) (s : Sessions) where
  abbrev revoked_tables : Sessions
  revoked_tables = revoke_where (own_family user_id) user_id now reason s

  abbrev targets : Family → Bool
  targets f = own_family user_id f && own_family user_id f && is_live f

  abbrev ended : Family → Family
  ended f = record f { revoked_at = some now; revoked_reason = some reason }

  none_live : live_sessions user_id revoked_tables ≡ 0
  unfolding live_sessions revoke_where
  none_live = ap length (
      select-eq-nil targets (update targets ended s.families)
        (find-update-none targets ended targets (λ f h. ground arith) (λ f h. h) s.families))

  others_kept :
      (other : ℕ)
      → other ≢ user_id
      → select (own_family other) revoked_tables.families ≡ select (own_family other) s.families
  unfolding revoke_where
  others_kept other apart =
      select-update (own_family other) targets ended (λ f h. (ground arith, ground arith))
        s.families

  -- Revoking every session of a user answers with how many were live, leaves none live, and leaves
  -- the sessions of every other user as they were.
  pub revoke_all_for_user-none_left :
      user_id ≢ 0
      → (other : ℕ) → other ≢ user_id
      → ((revoke_all_for_user user_id reason now s).0 ≡ (count_live_sessions user_id s).0)
        × ((count_live_sessions user_id (revoke_all_for_user user_id reason now s).1).0 ≡ ok 0)
        × (select (own_family other) (revoke_all_for_user user_id reason now s).1.families
            ≡ select (own_family other) s.families)
  unfolding revoke_all_for_user count_live_sessions with_identity_tx identity_valid
  revoke_all_for_user-none_left known other apart =
      (ground arith, ground (arith, none_live), ground (arith, others_kept other apart))
