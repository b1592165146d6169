-- ===== src/Refresh/Tests.antt =====
-- Refresh tokens that are issued, rotated, replayed and revoked (internal/authn/refresh.go).
use tenant_api_platform.Prelude.{ℕ, ◌+◌, ◌*◌, ok, none, some, [], ◌∷◌, ◌≡◌, ◌≢◌, refl, arith, find}
use tenant_api_platform.Prelude.Int64.{pos}
use tenant_api_platform.Prelude.Runes.{Runes}
use tenant_api_platform.Db.{with_identity_tx, identity_valid}
use tenant_api_platform.Refresh.Tables.{Sessions, insert_token, has_hash, revoke_where}
use tenant_api_platform.Refresh.Store.{
  RefreshStore, Clocks, TokenPair, secret_text, positive_ttl, start_session, revoke_family,
}
use tenant_api_platform.Refresh.Rotate.{
  rotate, rotated, reused, failed, refresh_revoked, refresh_retry_race, refused, rotate_tx,
  rotate_read, rotate_write, mint,
}
use tenant_api_platform.Refresh.Rotate.Succession.{rotate-continues}
use tenant_api_platform.Refresh.Steps.{Running, Step, Reach, empty}
use tenant_api_platform.Refresh.Steps.Safe.{Safe}
use tenant_api_platform.Refresh.Steps.Invariant.{Reach-Safe}
use tenant_api_platform.Refresh.Steps.Single.{rotate-once, after_rotate}
use tenant_api_platform.Refresh.Steps.Replayed.{rotate-reused}

abbrev digest : Runes → ℕ
digest [] = 1
digest (r ∷ s) = r + 1000 * digest s

abbrev store : RefreshStore
store = record { hash = digest; grace = 10 }

abbrev at : ℕ → Clocks
at n = record { now = n; later = n; db_now = n }

-- The text of a token whose random part is one rune.
abbrev held : ℕ → Runes
held r = 114 ∷ 116 ∷ 95 ∷ r ∷ []

abbrev sessions : Sessions
sessions = record {
  families =
      record { id = 9; user_id = 7; revoked_at = none; revoked_reason = none }
      ∷ record { id = 8; user_id = 6; revoked_at = none; revoked_reason = none }
      ∷ [];
  tokens =
      record {
        token_hash = digest (held 1);
        family_id = 9;
        user_id = 7;
        issued_at = 5;
        expires_at = 100;
        consumed_at = none;
        replaced_by = none;
      }
      ∷ [];
}

abbrev running : Running
running = record { tables = sessions; reads = [] }

abbrev pair : ℕ → ℕ → TokenPair
pair r expires_at = record { refresh_token = held r; user_id = 7; expires_at = expires_at }

first_rotation :
    (rotate store (at 20) 21 (ok (2 ∷ [])) (held 1) (pos 50) sessions).0 ≡ rotated (pair 2 70)
unfolding rotate rotate_tx rotate_read rotate_write mint insert_token positive_ttl secret_text
first_rotation = refl

-- The first token, presented again at 40, after the grace.
abbrev rotated_sessions : Sessions
rotated_sessions = (rotate store (at 20) 21 (ok (2 ∷ [])) (held 1) (pos 50) sessions).1

replay_found :
    (rotate store (at 40) 41 (ok (3 ∷ [])) (held 1) (pos 50) rotated_sessions).0
    ≡ reused 7 9 (ok tt)
unfolding rotate rotate_tx rotate_read rotate_write mint insert_token positive_ttl secret_text
    revoke_family with_identity_tx identity_valid revoke_where
replay_found = refl

abbrev replayed_running : Running
replayed_running =
    after_rotate store (at 40) 41 (ok (3 ∷ [])) (held 1) (pos 50)
      (record { tables = rotated_sessions; reads = [] })

successor_held :
    find (has_hash (digest (held 2))) replayed_running.tables.tokens
    ≡ some (record {
      token_hash = digest (held 2);
      family_id = 9;
      user_id = 7;
      issued_at = 20;
      expires_at = 70;
      consumed_at = none;
      replaced_by = none;
    })
unfolding rotate rotate_tx rotate_read rotate_write mint insert_token positive_ttl secret_text
    revoke_family with_identity_tx identity_valid revoke_where
successor_held = refl

third_secret : find (has_hash (digest (secret_text (3 ∷ [])))) rotated_sessions.tokens ≡ none
unfolding rotate rotate_tx rotate_read rotate_write mint insert_token positive_ttl secret_text
third_secret = refl

fifty : positive_ttl (pos 50) ≡ some 50
unfolding positive_ttl
fifty = ground arith

Reach-Safe_example : Safe (record {
  tables = (start_session store (at 5) 9 (ok (1 ∷ [])) 7 (pos 95) empty.tables).1;
  reads = [];
})
Reach-Safe_example =
    Reach-Safe store _ (Reach.after Reach.here (Step.started (at 5) 9 (ok (1 ∷ [])) 7 (pos 95)))

rotate-once_example :
    ((rotate store (at 22) 23 (ok (3 ∷ [])) (held 1) (pos 50) rotated_sessions).0
      ≢ rotated (pair 3 72))
    × (rotate_write store
          (at 22)
          50
          (ok (3 ∷ []))
          (record {
            token_hash = digest (held 1);
            family_id = 9;
            user_id = 7;
            issued_at = 5;
            expires_at = 100;
            consumed_at = none;
            replaced_by = none;
          })
          rotated_sessions
        ≡ ok (refused refresh_retry_race, rotated_sessions))
rotate-once_example =
    rotate-once store (at 20) 21 (ok (2 ∷ [])) (held 1) (pos 50) running (pair 2 70) first_rotation
      (after_rotate store (at 20) 21 (ok (2 ∷ [])) (held 1) (pos 50) running) Reach.here (at 22) 23
      50 (3 ∷ []) (pos 50) (pair 3 72)
      (record {
        token_hash = digest (held 1);
        family_id = 9;
        user_id = 7;
        issued_at = 5;
        expires_at = 100;
        consumed_at = none;
        replaced_by = none;
      })
      refl

rotate-reused_example :
    rotate store (at 45) 46 (ok (4 ∷ [])) (held 2) (pos 50) replayed_running.tables
    ≡ (failed refresh_revoked, replayed_running.tables)
rotate-reused_example =
    rotate-reused store (at 40) 41 (ok (3 ∷ [])) (held 1) (pos 50)
      (record { tables = rotated_sessions; reads = [] }) 7 9 replay_found replayed_running
      Reach.here (at 45) 46 50 (ok (4 ∷ [])) (held 2) (pos 50)
      (record {
        token_hash = digest (held 2);
        family_id = 9;
        user_id = 7;
        issued_at = 20;
        expires_at = 70;
        consumed_at = none;
        replaced_by = none;
      })
      refl fifty successor_held refl refl

rotate-continues_example :
    (rotate store (at 40) 41 (ok (3 ∷ [])) (held 2) (pos 50) rotated_sessions).0
    ≡ rotated (record { refresh_token = secret_text (3 ∷ []); user_id = 7; expires_at = 40 + 50 })
rotate-continues_example =
    rotate-continues store (at 20) (at 40) 21 41 (ok (2 ∷ [])) (held 1) (3 ∷ []) (pos 50) (pos 50)
      50 sessions (pair 2 70) first_rotation refl fifty refl third_secret
