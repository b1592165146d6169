-- ===== src/Refresh/Steps/Replayed.antt =====
-- A replayed refresh token ends its session (Rotate of internal/authn/refresh.go).
use mathlib.Core.Path.{subst}
use mathlib.Core.Option
use tenant_api_platform.Prelude.{
  ℕ, false, ◌&&◌, Result, ok, err, Option, none, some, ◌≡◌, refl, sym, ◌∙◌, ap, arith, inl, inr,
  find, if◌then◌else◌, find-update, find-eq-some,
}
use tenant_api_platform.Prelude.Int64.{ℤ}
use tenant_api_platform.Prelude.Runes.{Runes}
use tenant_api_platform.Audit.{is_empty}
use tenant_api_platform.Db.{finish, with_identity_tx, identity_valid}
use tenant_api_platform.Db.Laws.{finish-eq-ok}
use tenant_api_platform.Refresh.Tables.{
  Family, Token, Sessions, has_family, has_hash, own_family, is_live, revoke_where,
}
use tenant_api_platform.Refresh.Store.{RefreshStore, Clocks, positive_ttl, revoke_family}
use tenant_api_platform.Refresh.Rotate.{
  decided, Verdict, issued, refused, replayed, refresh_revoked, rotate_read, rotate_tx, rotate,
  conclude, reused, failed, read_family, reuse_reason,
}
use tenant_api_platform.Refresh.Rotate.Minted.{rotate_write-cases}
use tenant_api_platform.Refresh.Rotate.Rotated.{Reading-cases, rotate-cases, read_token-found}
use tenant_api_platform.Db.Laws.{finish-eq-ok}
use tenant_api_platform.Refresh.Steps.Single.{after_rotate}
use tenant_api_platform.Refresh.Steps.{Running, Reach}
use tenant_api_platform.Refresh.Steps.Spent.{Revoked, Reach-Revoked}

-- Revoking a family that is there leaves it revoked.
revoke_where-Revoked :
    (user_id family_id now : ℕ) (reason : Runes) (s : Sessions) (f : Family)
    → find (λ g. own_family user_id g && has_family family_id g) s.families ≡ some f
    → Revoked user_id family_id (revoke_where (has_family family_id) user_id now reason s).families
unfolding revoke_where
revoke_where-Revoked user_id family_id now reason s f there =
    let key =
      find-eq-some (λ g. own_family user_id g && has_family family_id g) s.families f there in
    record {
      family =
          if own_family user_id f && has_family family_id f && is_live f
          then record f { revoked_at = some now; revoked_reason = some reason }
          else f;
      there =
          find-update _ _ (λ g. own_family user_id g && has_family family_id g) (λ g. refl)
            s.families
          ∙ ap (Option.map _) there;
      since = ground (arith, key);
    }

-- Every token of a revoked family is refused.
Revoked-refused :
    (st : RefreshStore) (c : Clocks) (revoke_now lifetime : ℕ) (random : Result Runes)
    (presented : Runes) (ttl : ℤ) (s : Sessions) (t : Token)
    → is_empty presented ≡ false
    → positive_ttl ttl ≡ some lifetime
    → find (has_hash (st.hash presented)) s.tokens ≡ some t
    → Revoked t.user_id t.family_id s.families
    → rotate st c revoke_now random presented ttl s ≡ (failed refresh_revoked, s)
unfolding rotate rotate_tx rotate_read
Revoked-refused st c revoke_now lifetime random presented ttl s t full positive there r =
    ground (arith, full, positive, there, r.there, r.since)

reused-eq :
    (u f u' f' : ℕ) (r r' : Result (Unit {0}))
    → reused u f r ≡ reused u' f' r'
    → (u ≡ u') × (f ≡ f') × (r ≡ r')
reused-eq u f u' f' r r' h = (cc h, cc h, cc h)

conclude-reused :
    (revoke_now u f : ℕ) (r : Result Verdict × Sessions)
    → (conclude revoke_now r).0 ≡ reused u f (ok tt)
    → (r.0 ≡ ok (replayed u f))
      × ((revoke_family u f reuse_reason revoke_now r.1).0 ≡ ok tt)
      × ((conclude revoke_now r).1 ≡ (revoke_family u f reuse_reason revoke_now r.1).1)
conclude-reused revoke_now u f (err e, s) h = cc
conclude-reused revoke_now u f (ok (issued p), s) h = cc
conclude-reused revoke_now u f (ok (refused k), s) h = cc
conclude-reused revoke_now u f (ok (replayed u' f'), s) h =
    let (user, family, done) = reused-eq u' f' u f _ _ h in
    (cc (user, family), cc (user, family, done), cc (user, family))

revoke_family-eq-ok :
    (u f : ℕ) (reason : Runes) (now : ℕ) (s : Sessions)
    → (revoke_family u f reason now s).0 ≡ ok tt
    → (revoke_family u f reason now s).1 ≡ revoke_where (has_family f) u now reason s
unfolding revoke_family with_identity_tx identity_valid
revoke_family-eq-ok u f reason now s h = ground arith

-- A reading that found a replay.
read_replay :
    (st : RefreshStore) (c : Clocks) (t : Token) (g : Option Family) (u f : ℕ)
    → read_family st c t g ≡ decided (replayed u f)
    → (t.user_id ≡ u) × (t.family_id ≡ f) × ((h : Family) × (g ≡ some h))
read_replay st c t none u f h = cc
read_replay st c t (some g) u f h = (ground arith, ground arith, (g, refl))

rotate_tx-replayed :
    (st : RefreshStore) (c : Clocks) (n : ℕ) (random : Result Runes) (hash u f : ℕ)
    (s s' : Sessions)
    → rotate_tx st c n random hash s ≡ ok (replayed u f, s')
    → (rotate_read st c hash s ≡ decided (replayed u f)) × (s' ≡ s)
unfolding rotate_tx
rotate_tx-replayed st c n random hash u f s s' h = elim (Reading-cases (rotate_read st c hash s)) [
  | inl (v, e) ↦ (ground arith, ground arith)
  | inr (t, e) ↦ elim (rotate_write-cases st c n t s s' random (replayed u f) (ground arith)) [
    | inl (p, k) ↦ cc
    | inr (k, same) ↦ cc
  ]
]

module _ (st : RefreshStore) (c : Clocks) (revoke_now : ℕ) (random : Result Runes)
    (presented : Runes) (ttl : ℤ) (x : Running) (u f : ℕ) where
  reused-Revoked :
      (rotate st c revoke_now random presented ttl x.tables).0 ≡ reused u f (ok tt)
      → Revoked u f (rotate st c revoke_now random presented ttl x.tables).1.families
  reused-Revoked h = elim (rotate-cases st c revoke_now random presented ttl x.tables) [
    | inl e ↦ cc (e, h)
    | inr (inl e) ↦ cc (e, h)
    | inr (inr (n, k, whole)) ↦
        let tx = rotate_tx st c n random (st.hash presented) x.tables in
        let (done, revoked, same) =
          conclude-reused revoke_now u f (finish x.tables tx) (ap (λ y. y.0) (sym whole) ∙ h) in
        let (reading, unchanged) =
          rotate_tx-replayed st c n random (st.hash presented) u f x.tables _
            (finish-eq-ok x.tables tx done) in
        let after =
          ap (λ y. y.1) whole ∙ same ∙ revoke_family-eq-ok u f reuse_reason revoke_now _ revoked in
        elim (read_token-found st c (st.hash presented) x.tables _ reading) [
          | inl missing ↦ cc
          | inr (t, there, reads) ↦
              let (user, family, (g, found)) = read_replay st c t _ u f reads in
              subst (λ y. Revoked u f y.families)
                (sym (after ∙ ap (revoke_where (has_family f) u revoke_now reuse_reason) unchanged))
                (revoke_where-Revoked u f revoke_now reuse_reason x.tables g (
                  subst
                    (λ i. find (λ y. own_family u y && has_family i y) x.tables.families ≡ some g)
                    family
                    (subst
                      (λ i.
                        find (λ y. own_family i y && has_family t.family_id y) x.tables.families
                        ≡ some g)
                      user found)))
        ]
  ]

  -- A token that is presented again outside the grace window ends its session: once a Rotate has
  -- reported the reuse and revoked the family, every token of that family, its unconsumed one
  -- included, is refused as revoked, whatever other requests do in between, and presenting it
  -- changes nothing.
  pub rotate-reused :
      (rotate st c revoke_now random presented ttl x.tables).0 ≡ reused u f (ok tt)
      → (y : Running) → Reach st (after_rotate st c revoke_now random presented ttl x) y
      → (c' : Clocks) (revoke_now' lifetime : ℕ) (random' : Result Runes) (held : Runes) (ttl' : ℤ)
        (t : Token)
      → is_empty held ≡ false
      → positive_ttl ttl' ≡ some lifetime
      → find (has_hash (st.hash held)) y.tables.tokens ≡ some t
      → t.user_id ≡ u
      → t.family_id ≡ f
      → rotate st c' revoke_now' random' held ttl' y.tables ≡ (failed refresh_revoked, y.tables)
  rotate-reused h y reach c' revoke_now' lifetime random' held ttl' t full positive there user
        family =
      let revoked = Reach-Revoked st u f _ y reach (reused-Revoked h) in
      Revoked-refused st c' revoke_now' lifetime random' held ttl' y.tables t full positive there (
        subst (λ i. Revoked t.user_id i y.tables.families) (sym family)
          (subst (λ i. Revoked i f y.tables.families) (sym user) revoked))
