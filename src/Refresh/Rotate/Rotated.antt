-- ===== src/Refresh/Rotate/Rotated.antt =====
-- What a Rotate that returned a pair went through (internal/authn/refresh.go).
use tenant_api_platform.Prelude.{
  ℕ, ◌&&◌, Result, ok, err, validation, Option, none, some, Option-cases, ◌≡◌, ◌≢◌, refl, sym, ◌∙◌,
  ap, arith, inl, inr, ◌⊎◌, Bool-cases, find,
}
use tenant_api_platform.Prelude.Int64.{ℤ}
use tenant_api_platform.Prelude.Runes.{Runes}
use tenant_api_platform.Audit.{is_empty}
use tenant_api_platform.Db.{finish}
use tenant_api_platform.Db.Laws.{finish-eq-ok}
use tenant_api_platform.Refresh.Tables.{Family, Token, Sessions, has_family, has_hash, own_family}
use tenant_api_platform.Refresh.Store.{RefreshStore, Clocks, TokenPair, positive_ttl}
use tenant_api_platform.Refresh.Rotate.{
  Reading, unconsumed, decided, Verdict, issued, refused, replayed, rotate_read, rotate_tx, rotate,
  conclude, refresh_unknown, broken, rotated, failed, read_family,
}
use tenant_api_platform.Refresh.Rotate.Minted.{Minted, rotate_write-Minted}

pub Reading-cases :
    (r : Reading) → ((v : Verdict) × (r ≡ decided v)) ⊎ ((t : Token) × (r ≡ unconsumed t))
Reading-cases (decided v) = inl (v, refl)
Reading-cases (unconsumed t) = inr (t, refl)

conclude-rotated :
    (revoke_now : ℕ) (r : Result Verdict × Sessions) (pair : TokenPair)
    → (conclude revoke_now r).0 ≡ rotated pair
    → (r.0 ≡ ok (issued pair)) × ((conclude revoke_now r).1 ≡ r.1)
conclude-rotated revoke_now (err e, s) pair h = cc
conclude-rotated revoke_now (ok (issued p), s) pair h = (cc h, refl)
conclude-rotated revoke_now (ok (refused f), s) pair h = cc
conclude-rotated revoke_now (ok (replayed u f), s) pair h = cc

-- Reading alone issues nothing.
unissued :
    (st : RefreshStore) (c : Clocks) (t : Token) (f : Option Family) (pair : TokenPair)
    → read_family st c t f ≢ decided (issued pair)
unissued st c t none pair h = cc
unissued st c t (some f) pair h = ground arith

pub read_token-found :
    (st : RefreshStore) (c : Clocks) (hash : ℕ) (s : Sessions) (r : Reading)
    → rotate_read st c hash s ≡ r
    → (r ≡ decided (refused refresh_unknown))
      ⊎ ((t : Token) × (find (has_hash hash) s.tokens ≡ some t)
          × (read_family st c t
                (find (λ f. own_family t.user_id f && has_family t.family_id f) s.families)
              ≡ r))
unfolding rotate_read
read_token-found st c hash s r h = elim (Option-cases (find (has_hash hash) s.tokens)) [
  | inl e ↦ inl (ground arith)
  | inr (t, e) ↦ inr (t, e, ground arith)
]

read_family-eq :
    (st : RefreshStore) (c : Clocks) (r t : Token) (f : Option Family)
    → read_family st c r f ≡ unconsumed t
    → r ≡ t
read_family-eq st c r t none h = cc
read_family-eq st c r t (some f) h = ground arith

module _ (st : RefreshStore) (c : Clocks) (revoke_now : ℕ) (random : Result Runes)
    (presented : Runes) (ttl : ℤ) (s : Sessions) where
  -- What a successful call went through.
  pub record Rotated (pair : TokenPair) (s' : Sessions) : Type 0 where
    pub lifetime : ℕ
    pub positive : positive_ttl ttl ≡ some lifetime
    pub token : Token
    pub there : find (has_hash (st.hash presented)) s.tokens ≡ some token
    pub reads : rotate_read st c (st.hash presented) s ≡ unconsumed token
    pub text : Runes
    pub drawn : random ≡ ok text
    pub minted : Minted st c lifetime text token pair s s'

  issued_by_reading :
      (v : Verdict)
      → rotate_read st c (st.hash presented) s ≡ decided v
      → (pair : TokenPair) → v ≢ issued pair
  issued_by_reading v e pair k = elim (read_token-found st c (st.hash presented) s _ e) [
    | inl missing ↦ cc (missing, k)
    | inr (t, there, reads) ↦
        unissued st c t (find (λ f. own_family t.user_id f && has_family t.family_id f) s.families)
          pair (cc (reads, k))
  ]

  found_by_reading :
      (t : Token)
      → rotate_read st c (st.hash presented) s ≡ unconsumed t
      → find (has_hash (st.hash presented)) s.tokens ≡ some t
  found_by_reading t e = elim (read_token-found st c (st.hash presented) s _ e) [
    | inl missing ↦ cc
    | inr (r, there, reads) ↦ cc (there, read_family-eq st c r t _ reads)
  ]

  -- A call is refused outright, or what its transaction left is concluded.
  pub rotate-cases :
      ((rotate st c revoke_now random presented ttl s).0 ≡ failed refresh_unknown)
      ⊎ ((rotate st c revoke_now random presented ttl s).0 ≡ broken validation)
      ⊎ ((n : ℕ) × (positive_ttl ttl ≡ some n)
          × (rotate st c revoke_now random presented ttl s
              ≡ conclude revoke_now (finish s (rotate_tx st c n random (st.hash presented) s))))
  unfolding rotate
  rotate-cases = elim (Bool-cases (is_empty presented)) [
    | inl e ↦ inl (ground arith)
    | inr e ↦ elim (Option-cases (positive_ttl ttl)) [
      | inl k ↦ inr (inl (ground arith))
      | inr (n, k) ↦ inr (inr (n, k, ground (arith, k)))
    ]
  ]

  ran :
      (pair : TokenPair)
      → (rotate st c revoke_now random presented ttl s).0 ≡ rotated pair
      → (n : ℕ) × (positive_ttl ttl ≡ some n)
        × (rotate_tx st c n random (st.hash presented) s
            ≡ ok (issued pair, (rotate st c revoke_now random presented ttl s).1))
  ran pair h = elim rotate-cases [
    | inl e ↦ cc (e, h)
    | inr (inl e) ↦ cc (e, h)
    | inr (inr (n, k, whole)) ↦
        let (done, same) =
          conclude-rotated revoke_now (finish s (rotate_tx st c n random (st.hash presented) s))
            pair (ap (λ x. x.0) (sym whole) ∙ h) in
        (
          n,
          k,
          finish-eq-ok s (rotate_tx st c n random (st.hash presented) s) done
              ∙ ap (λ x. ok (issued pair, x)) (sym (ap (λ x. x.1) whole ∙ same)),
        )
  ]

  pub rotate-Rotated :
      (pair : TokenPair)
      → (rotate st c revoke_now random presented ttl s).0 ≡ rotated pair
      → Rotated pair (rotate st c revoke_now random presented ttl s).1
  unfolding rotate_tx
  rotate-Rotated pair h =
      let (n, positive, tx) = ran pair h in
      elim (Reading-cases (rotate_read st c (st.hash presented) s)) [
        | inl (v, e) ↦ absurd (issued_by_reading v e pair (ground arith))
        | inr (t, e) ↦
            let (text, drawn, made) = rotate_write-Minted st c n t pair s _ random (ground arith) in
            record {
              lifetime = n;
              positive = positive;
              token = t;
              there = found_by_reading t e;
              reads = e;
              text = text;
              drawn = drawn;
              minted = made;
            }
      ]
