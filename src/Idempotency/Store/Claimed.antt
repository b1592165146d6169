-- ===== src/Idempotency/Store/Claimed.antt =====
-- A Begin that lets its request proceed holds the key (internal/idempotency/store.go).
use tenant_api_platform.Prelude.{
  ℕ, zero, suc, ◌+◌, ◌≤◌, Bool, true, false, not, ◌&&◌, Option, none, some, Option-cases, ◌≡◌, ◌≢◌,
  refl, sym, ◌∙◌, ap, arith, inl, inr, ◌⊎◌, Bool-cases, ◌==◌, ==_refl, find, count, count-select,
  find-none_of,
}
use mathlib.Core.Path.{subst}
use tenant_api_platform.Prelude.Runes.{Runes, runes_eq_refl}
use tenant_api_platform.Audit.{is_some}
use tenant_api_platform.Tenant.{Authorized, auth_valid}
use tenant_api_platform.Idempotency.Protocol.{validate_key}
use tenant_api_platform.Idempotency.Store.{
  KeyRow, Keys, KeyStore, KeyState, completed, Recorded, in_progress, World, at_key, is_completed,
  is_stale, new_claim, retaken, insert_claim, clear_expired, take_over, try_claim, claim_or_clear,
  claim_again, begin, begin_loop, Begun, proceed, on_claim, on_record, classify_record, taken,
  recorded,
}
use tenant_api_platform.Idempotency.Store.Rows.{
  SoleRow, found_row, SoleRow-append, take_over-stale, take_over-fresh,
}

-- The table's primary key, for one tenant and key.
abbrev pub Keyed : ℕ → Runes → Keys → Type 0
Keyed tenant_id key ks = count (at_key tenant_id key) ks ≤ 1

-- The key is held by a claim of that fingerprint, made at that time.
pub record Held (retention tenant_id : ℕ) (key : Runes) (fp since : ℕ) (ks : Keys) : Type 0 where
  pub row : KeyRow
  pub stored : SoleRow tenant_id key row ks
  pub open_claim : row.state ≡ in_progress
  pub same : row.fingerprint ≡ fp
  pub made : row.created_at ≡ since
  pub lasts : row.expires_at ≡ since + retention

open_state : (s : KeyState) → not (is_completed s) ≡ true → s ≡ in_progress
open_state in_progress h = refl
open_state completed h = cc

module _ (st : KeyStore) (auth : Authorized) (key : Runes) (fp : ℕ) where
  -- An insertion claims a key that is free, and nothing else.
  insert_claim-cases :
      (now : ℕ) (ks : Keys)
      → (((insert_claim st auth key fp now ks).0 ≡ true)
          × Held st.retention auth.scope.id key fp now (insert_claim st auth key fp now ks).1)
        ⊎ (insert_claim st auth key fp now ks ≡ (false, ks))
  unfolding insert_claim
  insert_claim-cases now ks = elim (Option-cases (find (at_key auth.scope.id key) ks)) [
    | inl e ↦ inl (
      ground (arith, e),
      rw e (record {
        row = new_claim st auth key fp now;
        stored =
            SoleRow-append auth.scope.id key ks (new_claim st auth key fp now)
              (ground (arith, ==_refl auth.scope.id, runes_eq_refl key)) e;
        open_claim = refl;
        same = refl;
        made = refl;
        lasts = refl;
      }),
    )
    | inr (r, e) ↦ inr (ground (arith, e))
  ]

  absent_row :
      (now : ℕ) (ks : Keys)
      → find (at_key auth.scope.id key) ks ≡ none
      → (take_over st auth key fp now ks).0 ≡ false
  unfolding take_over
  absent_row now ks e =
      let none_found =
        find-none_of (λ r. at_key auth.scope.id key r && is_stale st.lease now r)
          (at_key auth.scope.id key) (λ r k. ground (arith, k)) ks e in
      ground (arith, none_found)

  module _ (w : World)
      (safe : (n : ℕ) (ks : Keys)
        → Keyed auth.scope.id key ks
        → Keyed auth.scope.id key (w.others n ks)) where
    -- What an attempt to claim comes to.
    abbrev Outcome : Bool × Keys → Type 0
    Outcome x =
        ((x.0 ≡ true) × ((m : ℕ) × Held st.retention auth.scope.id key fp (w.now m) x.1))
        ⊎ ((x.0 ≡ false) × Keyed auth.scope.id key x.1)

    inserted :
        (m : ℕ) (ks : Keys)
        → Keyed auth.scope.id key ks
        → Outcome (insert_claim st auth key fp (w.now m) ks)
    inserted m ks keyed = elim (insert_claim-cases (w.now m) ks) [
      | inl (e, held) ↦ inl (e, (m, held))
      | inr e ↦ inr (ap (λ x. x.0) e, subst (Keyed auth.scope.id key) (sym (ap (λ x. x.1) e)) keyed)
    ]

    again :
        (n : ℕ) (x : Bool × Keys)
        → Keyed auth.scope.id key x.1
        → Outcome (claim_again st auth key fp w n x)
    again n (false, ks) keyed = inr (refl, keyed)
    again n (true, ks) keyed = inserted (n + 2) (w.others (n + 2) ks) (safe (n + 2) ks keyed)

    cleared :
        (now : ℕ) (ks : Keys)
        → Keyed auth.scope.id key ks
        → Keyed auth.scope.id key (clear_expired auth key now ks).1
    unfolding clear_expired
    cleared now ks keyed = omega (arith, keyed, count-select (at_key auth.scope.id key) _ ks)

    or_clear : (n : ℕ) (x : Bool × Keys) → Outcome x → Outcome (claim_or_clear st auth key fp w n x)
    or_clear n (true, ks) (inl h) = inl h
    or_clear n (true, ks) (inr (e, keyed)) = cc
    or_clear n (false, ks) (inl (e, held)) = cc
    or_clear n (false, ks) (inr (e, keyed)) =
        again n (clear_expired auth key (w.now (n + 1)) (w.others (n + 1) ks))
          (cleared (w.now (n + 1)) (w.others (n + 1) ks) (safe (n + 1) ks keyed))

    try_claim-Outcome :
        (n : ℕ) (ks : Keys) → Keyed auth.scope.id key ks → Outcome (try_claim st auth key fp w n ks)
    unfolding try_claim
    try_claim-Outcome n ks keyed = or_clear n _ (inserted n (w.others n ks) (safe n ks keyed))

    -- What Begin leaves when it lets the request proceed.
    abbrev Proceeds : Begun × Keys → Type 0
    Proceeds x = (x.0 ≢ proceed) ⊎ ((m : ℕ) × Held st.retention auth.scope.id key fp (w.now m) x.1)

    took :
        (x : Bool × Keys)
        → (x.0 ≡ false) ⊎ ((m : ℕ) × Held st.retention auth.scope.id key fp (w.now m) x.1)
        → Proceeds (taken x)
    took (true, ks) (inl e) = cc
    took (true, ks) (inr h) = inr h
    took (false, ks) h = inl (λ e. cc)

    retakes :
        (m : ℕ) (ks : Keys)
        → Keyed auth.scope.id key ks
        → Proceeds (taken (take_over st auth key fp (w.now m) ks))
    retakes m ks keyed = took _ (elim (Option-cases (find (at_key auth.scope.id key) ks)) [
      | inl e ↦ inl (absent_row (w.now m) ks e)
      | inr (r, e) ↦ elim (Bool-cases (is_stale st.lease (w.now m) r)) [
        | inl k ↦
            let (took, row) =
              take_over-stale st auth key ks r (found_row st auth key ks r keyed e) fp (w.now m)
                k in
            inr (
              m,
              record {
                row = retaken st auth fp (w.now m) r;
                stored = row;
                open_claim = open_state r.state (ground (arith, k));
                same = refl;
                made = refl;
                lasts = refl;
              },
            )
        | inr k ↦
            inl
              (take_over-fresh st auth key ks r (found_row st auth key ks r keyed e) fp (w.now m) k)
      ]
    ])

    classified :
        (n : ℕ) (rec : Recorded) (ks : Keys)
        → Keyed auth.scope.id key ks
        → Proceeds (classify_record st auth key fp w n rec ks)
    classified n rec ks keyed = elim (Bool-cases (is_completed rec.state)) [
      | inl e ↦ elim (Bool-cases rec.replayable) [
        | inl k ↦ inl (λ p. absurd (ground (arith, e, k, p)))
        | inr k ↦ inl (λ p. absurd (ground (arith, e, k, p)))
      ]
      | inr e ↦ elim (Bool-cases rec.lease_expired) [
        | inl k ↦ rw (e, k) (retakes (n + 4) (w.others (n + 4) ks) (safe (n + 4) ks keyed))
        | inr k ↦ inl (λ p. absurd (ground (arith, e, k, p)))
      ]
    ]

    recorded_or_gone :
        (n : ℕ) (next : Keys → Begun × Keys)
        → ((ks : Keys) → Keyed auth.scope.id key ks → Proceeds (next ks))
        → (r : Option KeyRow) (ks : Keys) → Keyed auth.scope.id key ks
        → Proceeds (on_record st auth key fp w n next r ks)
    recorded_or_gone n next ih none ks keyed = ih ks keyed
    recorded_or_gone n next ih (some r) ks keyed = elim (Bool-cases (r.fingerprint == fp)) [
      | inl e ↦ rw e (classified n (recorded st (w.now (n + 3)) r) ks keyed)
      | inr e ↦ inl (λ p. absurd (ground (arith, e, p)))
    ]

    claimed_or_not :
        (n : ℕ) (next : Keys → Begun × Keys)
        → ((ks : Keys) → Keyed auth.scope.id key ks → Proceeds (next ks))
        → (x : Bool × Keys) → Outcome x
        → Proceeds (on_claim st auth key fp w n next x)
    claimed_or_not n next ih (true, ks) (inl (e, held)) = inr held
    claimed_or_not n next ih (true, ks) (inr (e, keyed)) = cc
    claimed_or_not n next ih (false, ks) (inl (e, held)) = cc
    claimed_or_not n next ih (false, ks) (inr (e, keyed)) =
        recorded_or_gone n next ih _ (w.others (n + 3) ks) (safe (n + 3) ks keyed)

    begin_loop-Proceeds :
        (attempts n : ℕ) (ks : Keys)
        → Keyed auth.scope.id key ks
        → Proceeds (begin_loop st auth key fp w attempts n ks)
    unfolding begin_loop
    begin_loop-Proceeds zero n ks keyed = inl (λ e. cc)
    begin_loop-Proceeds (suc attempts) n ks keyed =
        claimed_or_not n (begin_loop st auth key fp w attempts (n + 5))
          (λ k kd. begin_loop-Proceeds attempts (n + 5) k kd) _ (try_claim-Outcome n ks keyed)

    -- A Begin that says to proceed leaves the key held by a claim of its own.
    pub begin-Held :
        (ks : Keys)
        → Keyed auth.scope.id key ks
        → (begin st auth key fp w ks).0 ≡ proceed
        → (m : ℕ) × Held st.retention auth.scope.id key fp (w.now m) (begin st auth key fp w ks).1
    unfolding begin
    begin-Held ks keyed h = elim (Bool-cases (auth_valid auth)) [
      | inr e ↦ absurd (ground arith)
      | inl e ↦ elim (Bool-cases (is_some (validate_key key))) [
        | inl k ↦ absurd (ground arith)
        | inr k ↦
            let same : begin st auth key fp w ks ≡ begin_loop st auth key fp w 2 0 ks =
              ground (arith, e, k) in
            elim (begin_loop-Proceeds 2 0 ks keyed) [
              | inl stays ↦ absurd (stays (ap (λ x. x.0) (sym same) ∙ h))
              | inr (m, held) ↦ (m, rw same held)
            ]
      ]
    ]
