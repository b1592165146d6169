-- ===== src/Refresh/Tables/Laws.antt =====
-- What an insertion into the refresh tables that went through has done (migration 0002_auth.sql).
use tenant_api_platform.Prelude.{
  ℕ, true, ok, some, none, Option-cases, [], ◌∷◌, ◌++◌, ◌≡◌, arith, inl, inr, ltb, find, Bool-cases,
}
use tenant_api_platform.Refresh.Tables.{
  Family, Token, Sessions, has_family, has_hash, insert_token, insert_family,
}

-- An insertion that went through.
pub record Inserted (t : Token) (s s' : Sessions) : Type 0 where
  pub fresh : find (has_hash t.token_hash) s.tokens ≡ none
  pub family : Family
  pub exists : find (has_family t.family_id) s.families ≡ some family
  pub timely : ltb t.issued_at t.expires_at ≡ true
  pub tokens : s'.tokens ≡ s.tokens ++ t ∷ []
  pub families : s'.families ≡ s.families

pub insert_token-Inserted :
    (t : Token) (s s' : Sessions) → insert_token t s ≡ ok (tt, s') → Inserted t s s'
unfolding insert_token
insert_token-Inserted t s s' h = elim (Option-cases (find (has_hash t.token_hash) s.tokens)) [
  | inl fresh ↦ elim (Option-cases (find (has_family t.family_id) s.families)) [
    | inl e ↦ absurd (ground arith)
    | inr (f, e) ↦ elim (Bool-cases (ltb t.issued_at t.expires_at)) [
      | inl late ↦ record {
        fresh = fresh;
        family = f;
        exists = e;
        timely = late;
        tokens = ground arith;
        families = ground arith;
      }
      | inr late ↦ absurd (ground arith)
    ]
  ]
  | inr (c, e) ↦ absurd (ground arith)
]

pub insert_family-inserted :
    (id user_id : ℕ) (s s' : Sessions)
    → insert_family id user_id s ≡ ok (tt, s')
    → (find (has_family id) s.families ≡ none)
      × (s' ≡ record s {
        families =
            s.families
            ++ record { id = id; user_id = user_id; revoked_at = none; revoked_reason = none } ∷ [];
      })
unfolding insert_family
insert_family-inserted id user_id s s' h = elim (Option-cases (find (has_family id) s.families)) [
  | inl fresh ↦ (fresh, ground arith)
  | inr (f, e) ↦ absurd (ground arith)
]
