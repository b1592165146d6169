-- ===== src/Refresh/Steps/Effects.antt =====
-- What a step does to the refresh tables, whichever operation it belongs to
-- (internal/authn/refresh.go).
use mathlib.Core.List.{Memᴰ}
use tenant_api_platform.Prelude.{
  ℕ, ◌+◌, Bool, ◌||◌, Result, ok, err, Result-cases, Option-cases, List, ◌≡◌, refl, ◌∙◌, arith, inl,
  inr, Bool-cases, ◌==◌, find,
}
use tenant_api_platform.Prelude.Int64.{ℤ}
use tenant_api_platform.Prelude.Runes.{Runes}
use tenant_api_platform.Audit.{is_empty}
use tenant_api_platform.Db.{finish, with_identity_tx, identity_valid}
use tenant_api_platform.Refresh.Tables.{
  Family, Token, Sessions, has_family, has_hash, own_family, revoke_where, new_token,
}
use tenant_api_platform.Refresh.Store.{
  RefreshStore, Clocks, TokenPair, secret_text, positive_ttl, start_tx, start_session,
  revoke_family, revoke_all_for_user,
}
use tenant_api_platform.Refresh.Rotate.{Verdict, rotate_write, revoke_by_presented_token}
use tenant_api_platform.Refresh.Steps.{Running, Step}
use tenant_api_platform.Refresh.Rotate.Minted.{Minted, rotate_write-cases, rotate_write-Minted}

pub data Effect (st : RefreshStore) (reads : List Token) (s s' : Sessions) : Type 0 where
  kept : s' ≡ s → Effect st reads s s'
  revoked :
      (selected : Family → Bool) (user_id now : ℕ) (reason : Runes)
      → s' ≡ revoke_where selected user_id now reason s
      → Effect st reads s s'
  begun :
      (family_id user_id now expires_at : ℕ) (text : Runes)
      → start_tx family_id user_id
          (new_token (st.hash (secret_text text)) family_id user_id now expires_at)
          s
        ≡ ok (tt, s')
      → Effect st reads s s'
  minted :
      (c : Clocks) (ttl : ℕ) (text : Runes) (t : Token) (pair : TokenPair)
      → Memᴰ t reads
      → Minted st c ttl text t pair s s'
      → Effect st reads s s'

module _ (st : RefreshStore) (reads : List Token) (s : Sessions) where
  revoke_family-Effect :
      (user_id family_id : ℕ) (reason : Runes) (db_now : ℕ)
      → Effect st reads s (revoke_family user_id family_id reason db_now s).1
  unfolding revoke_family with_identity_tx identity_valid
  revoke_family-Effect user_id family_id reason db_now =
      elim (Bool-cases (user_id == 0 || family_id == 0)) [
        | inl e ↦ kept (ground arith)
        | inr e ↦ revoked (has_family family_id) user_id db_now reason (ground arith)
      ]

  revoke_by_presented_token-Effect :
      (presented reason : Runes) (db_now : ℕ)
      → Effect st reads s (revoke_by_presented_token st presented reason db_now s).1
  unfolding revoke_by_presented_token
  revoke_by_presented_token-Effect presented reason db_now =
      elim (Bool-cases (is_empty presented)) [
        | inl e ↦ kept (ground arith)
        | inr e ↦ elim (Option-cases (find (has_hash (st.hash presented)) s.tokens)) [
          | inl k ↦ kept (ground arith)
          | inr (t, k) ↦ revoked (has_family t.family_id) t.user_id db_now reason (ground arith)
        ]
      ]

  revoke_all_for_user-Effect :
      (user_id : ℕ) (reason : Runes) (db_now : ℕ)
      → Effect st reads s (revoke_all_for_user user_id reason db_now s).1
  unfolding revoke_all_for_user with_identity_tx identity_valid
  revoke_all_for_user-Effect user_id reason db_now = elim (Bool-cases (user_id == 0)) [
    | inl e ↦ kept (ground arith)
    | inr e ↦ revoked (own_family user_id) user_id db_now reason (ground arith)
  ]

  start_session-Effect :
      (c : Clocks) (family_id : ℕ) (random : Result Runes) (user_id : ℕ) (ttl : ℤ)
      → Effect st reads s (start_session st c family_id random user_id ttl s).1
  unfolding start_session with_identity_tx identity_valid
  start_session-Effect c family_id (err e) user_id ttl = kept (ground arith)
  start_session-Effect c family_id (ok text) user_id ttl = elim (Bool-cases (user_id == 0)) [
    | inl e ↦ kept (ground arith)
    | inr e ↦ elim (Option-cases (positive_ttl ttl)) [
      | inl k ↦ kept (ground arith)
      | inr (n, k) ↦
          elim (Result-cases (
            start_tx family_id user_id
              (new_token (st.hash (secret_text text)) family_id user_id c.db_now (c.now + n)) s)) [
                | inl ((u, s'), done) ↦
                    begun family_id user_id c.db_now (c.now + n) text (ground (arith, done))
                | inr (x, done) ↦ kept (ground (arith, done))
              ]
    ]
  ]

  written :
      (c : Clocks) (ttl : ℕ) (random : Result Runes) (t : Token)
      → Memᴰ t reads
      → (v : Verdict) (s' : Sessions) → rotate_write st c ttl random t s ≡ ok (v, s')
      → Effect st reads s (finish s (rotate_write st c ttl random t s)).1
  written c ttl random t m v s' e =
      let final : (finish s (rotate_write st c ttl random t s)).1 ≡ s' = ground (arith, e) in
      elim (rotate_write-cases st c ttl t s s' random v e) [
        | inl (pair, same) ↦
            let (text, drawn, made) =
              rotate_write-Minted st c ttl t pair s s' random (rw same at e) in
            minted c ttl text t pair m (rw final made)
        | inr (same, unchanged) ↦ kept (final ∙ unchanged)
      ]

  written-Effect :
      (c : Clocks) (ttl : ℕ) (random : Result Runes) (t : Token)
      → Memᴰ t reads
      → Effect st reads s (finish s (rotate_write st c ttl random t s)).1
  written-Effect c ttl random t m = elim (Result-cases (rotate_write st c ttl random t s)) [
    | inl ((v, s'), e) ↦ written c ttl random t m v s' e
    | inr (x, e) ↦ kept (ground (arith, e))
  ]

pub Step-Effect :
    (st : RefreshStore) (x y : Running) → Step st x y → Effect st x.reads x.tables y.tables
Step-Effect st x y (Step.read c hash t e) = kept refl
Step-Effect st x y (Step.started c family_id random user_id ttl) =
    start_session-Effect st x.reads x.tables c family_id random user_id ttl
Step-Effect st x y (Step.written c ttl random t m) =
    written-Effect st x.reads x.tables c ttl random t m
Step-Effect st x y (Step.family_revoked user_id family_id reason db_now) =
    revoke_family-Effect st x.reads x.tables user_id family_id reason db_now
Step-Effect st x y (Step.token_revoked presented reason db_now) =
    revoke_by_presented_token-Effect st x.reads x.tables presented reason db_now
Step-Effect st x y (Step.all_revoked user_id reason db_now) =
    revoke_all_for_user-Effect st x.reads x.tables user_id reason db_now
