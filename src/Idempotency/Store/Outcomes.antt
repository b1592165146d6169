-- ===== src/Idempotency/Store/Outcomes.antt =====
-- What a second Begin with the same key comes to (internal/idempotency/store.go).
use mathlib.Core.Path.{subst}
use tenant_api_platform.Prelude.{
  ℕ, ◌+◌, ◌≤◌, ◌<◌, true, false, some, ◌≡◌, refl, sym, ◌∙◌, ap, arith, inl, inr, Bool-cases, ◌==◌,
  ==_iff, update, find-eq-some, if◌then◌else◌,
}
use tenant_api_platform.Prelude.Runes.{Runes}
use tenant_api_platform.Audit.{is_some}
use tenant_api_platform.Tenant.{Authorized, auth_valid}
use tenant_api_platform.Idempotency.Protocol.{
  validate_key, in_progress_now, fingerprint_mismatch, not_replayable, CapturedResponse,
}
use tenant_api_platform.Idempotency.Headers.{encode_headers, decode_headers}
use tenant_api_platform.Idempotency.Store.{
  KeyRow, Keys, KeyStore, completed, in_progress, World, at_key, at_claim, is_expired, is_stale,
  try_claim, begin, begin_loop, Begun, proceed, replay, refused, on_record, recorded, complete,
  done, answered_row, take_over,
}
use tenant_api_platform.Idempotency.Store.Rows.{
  SoleRow, insert_claim-taken, clear_expired-kept, take_over-stale, SoleRow-update,
}
use tenant_api_platform.Idempotency.Store.Claimed.{Keyed, Held, begin-Held}

-- What other requests do in between leaves the row of the key as it is.
abbrev pub Quiet : World → ℕ → Runes → Type 0
Quiet w tenant_id key =
    (n : ℕ) (r : KeyRow) (ks : Keys)
    → SoleRow tenant_id key r ks
    → SoleRow tenant_id key r (w.others n ks)

module _ (st : KeyStore) (auth : Authorized) (key : Runes) (fp : ℕ) (w : World) (ks : Keys) where
  -- A Begin that got past its guards said so for a valid key.
  pub begin-valid :
      (begin st auth key fp w ks).0 ≡ proceed
      → (auth_valid auth ≡ true) × (is_some (validate_key key) ≡ false)
  unfolding begin
  begin-valid h = (ground arith, ground arith)

  module _ (quiet : Quiet w auth.scope.id key) (r : KeyRow)
      (row : SoleRow auth.scope.id key r ks) where
    try_claim-kept :
        is_expired (w.now 1) r ≡ false
        → try_claim st auth key fp w 0 ks ≡ (false, w.others 1 (w.others 0 ks))
    unfolding try_claim
    try_claim-kept live =
        rw
          (
            insert_claim-taken st auth key (w.others 0 ks) r (quiet 0 r ks row) fp (w.now 0),
            clear_expired-kept st auth key (w.others 1 (w.others 0 ks)) r
                (quiet 1 r (w.others 0 ks) (quiet 0 r ks row)) (w.now 1) live,
          )
          refl

    seen : Keys
    seen = w.others 3 (w.others 1 (w.others 0 ks))

    seen-SoleRow : SoleRow auth.scope.id key r seen
    unfolding seen
    seen-SoleRow = quiet 3 r _ (quiet 1 r _ (quiet 0 r ks row))

    -- Where the row of the key is live, Begin comes to what the record says.
    begin_on_row :
        auth_valid auth ≡ true
        → is_some (validate_key key) ≡ false
        → is_expired (w.now 1) r ≡ false
        → (begin st auth key fp w ks
            ≡ on_record st auth key fp w 0 (begin_loop st auth key fp w 1 5) (some r) seen)
    unfolding begin begin_loop seen
    begin_on_row valid named live =
        rw (valid, named, try_claim-kept live, (seen-SoleRow).there) refl

module _ (st : KeyStore) (auth : Authorized) (key : Runes) (fp : ℕ) (w : World)
    (next : Keys → Begun × Keys) (r : KeyRow) (ks : Keys) where
  on_open :
      r.state ≡ in_progress
      → is_stale st.lease (w.now 3) r ≡ false
      → (on_record st auth key fp w 0 next (some r) ks).0
        ≡ (if r.fingerprint == fp then refused in_progress_now else refused fingerprint_mismatch)
  on_open e fresh = elim (Bool-cases (r.fingerprint == fp)) [
    | inl k ↦ ground (arith, e, k, fresh)
    | inr k ↦ ground (arith, e, k)
  ]

  on_completed :
      r.state ≡ completed
      → r.fingerprint ≡ fp
      → (on_record st auth key fp w 0 next (some r) ks).0
        ≡ (if r.replayable then replay (recorded st (w.now 3) r) else refused not_replayable)
  on_completed e same = ground (arith, e, (==_iff r.fingerprint fp).1 same)

  on_stale :
      r.fingerprint ≡ fp
      → is_stale st.lease (w.now 3) r ≡ true
      → (take_over st auth key fp (w.now 4) (w.others 4 ks)).0 ≡ true
      → (on_record st auth key fp w 0 next (some r) ks).0 ≡ proceed
  on_stale same stale took = ground (arith, (==_iff r.fingerprint fp).1 same, stale, took)

module _ (st : KeyStore) (auth : Authorized) (key : Runes) (res : CapturedResponse) (at : ℕ)
    (ks : Keys) (r : KeyRow) where
  complete-SoleRow :
      SoleRow auth.scope.id key r ks
      → r.state ≡ in_progress
      → (complete st auth key res at ks).0 ≡ done
      → SoleRow auth.scope.id key (answered_row st res at r) (complete st auth key res at ks).1
  unfolding complete
  complete-SoleRow row open_claim h =
      let named = find-eq-some (at_key auth.scope.id key) ks r row.there in
      let rewritten =
        SoleRow-update (at_claim auth.scope.id key) (answered_row st res at) auth.scope.id key
          (λ x. refl) (λ x k. ground (arith, k)) ks r row (ground (arith, named, open_claim)) in
      let result : (complete st auth key res at ks).1
          ≡ update (at_claim auth.scope.id key) (answered_row st res at) ks =
        ground (arith, h) in
      rw result rewritten

  -- What is read of an answered row.
  replays :
      (now fp : ℕ)
      → r.fingerprint ≡ fp
      → (if (answered_row st res at r).replayable
          then replay (recorded st now (answered_row st res at r))
          else refused not_replayable)
        ≡ (if res.overflow
            then refused not_replayable
            else replay (record {
              fingerprint = fp;
              state = completed;
              status_code = res.status;
              headers = decode_headers st.canonical (encode_headers st.canonical res.headers);
              body = res.body;
              replayable = true;
              lease_expired = false;
            }))
  replays now fp same = elim (Bool-cases res.overflow) [
    | inl e ↦ rw e refl
    | inr e ↦ rw e (
        ap
          (λ f. replay (record {
            fingerprint = f;
            state = completed;
            status_code = res.status;
            headers = decode_headers st.canonical (encode_headers st.canonical res.headers);
            body = res.body;
            replayable = true;
            lease_expired = false;
          }))
          same)
  ]

module _ (st : KeyStore) (auth auth' : Authorized) (key : Runes) (fp fp' : ℕ) (w w' : World)
    (ks : Keys) where
  -- A key is used by one request at a time: after a Begin that said to proceed, and as long as what
  -- other requests do leaves the claim as it is and its lease has not passed, every Begin of the
  -- same tenant with the same key is told that the request is in progress, or, for a different
  -- request, that the key was used for another.
  pub begin-exclusive :
      Keyed auth.scope.id key ks
      → ((n : ℕ) (k : Keys) → Keyed auth.scope.id key k → Keyed auth.scope.id key (w.others n k))
      → (begin st auth key fp w ks).0 ≡ proceed
      → (since : ℕ) → ((n : ℕ) → since ≤ w.now n)
      → auth_valid auth' ≡ true
      → auth'.scope.id ≡ auth.scope.id
      → Quiet w' auth'.scope.id key
      → ((n : ℕ) → w'.now n ≤ since + st.lease)
      → (begin st auth' key fp' w' (begin st auth key fp w ks).1).0
        ≡ (if fp == fp' then refused in_progress_now else refused fingerprint_mismatch)
  begin-exclusive keyed safe h since early valid same quiet soon =
      let (m, held) = begin-Held st auth key fp w safe ks keyed h in
      let (_, named) = begin-valid st auth key fp w ks h in
      let row =
        subst (λ t. SoleRow t key held.row (begin st auth key fp w ks).1) (sym same) held.stored in
      let live : is_expired (w'.now 1) held.row ≡ false = ground (arith, held.open_claim) in
      let fresh : is_stale st.lease (w'.now 3) held.row ≡ false =
        ground (arith, held.made, early m, soon 3) in
      let whole = begin_on_row st auth' key fp' w' _ quiet held.row row valid named live in
      ap (λ x. x.0) whole
      ∙ on_open st auth' key fp' w' (begin_loop st auth' key fp' w' 1 5) held.row _ held.open_claim
          fresh
      ∙ ap (λ f. if f == fp' then refused in_progress_now else refused fingerprint_mismatch)
          held.same

module _ (st : KeyStore) (auth auth' : Authorized) (key : Runes) (fp : ℕ) (w w' : World)
    (ks : Keys) where
  -- A request whose process died does not block its key: once the lease of its claim has passed,
  -- with the claim still there, the same request proceeds.
  pub begin-retakes :
      Keyed auth.scope.id key ks
      → ((n : ℕ) (k : Keys) → Keyed auth.scope.id key k → Keyed auth.scope.id key (w.others n k))
      → (begin st auth key fp w ks).0 ≡ proceed
      → (until : ℕ) → ((n : ℕ) → w.now n ≤ until)
      → auth_valid auth' ≡ true
      → auth'.scope.id ≡ auth.scope.id
      → Quiet w' auth'.scope.id key
      → ((n : ℕ) → until + st.lease < w'.now n)
      → (begin st auth' key fp w' (begin st auth key fp w ks).1).0 ≡ proceed
  begin-retakes keyed safe h until early valid same quiet late =
      let (m, held) = begin-Held st auth key fp w safe ks keyed h in
      let (_, named) = begin-valid st auth key fp w ks h in
      let row =
        subst (λ t. SoleRow t key held.row (begin st auth key fp w ks).1) (sym same) held.stored in
      let live : is_expired (w'.now 1) held.row ≡ false = ground (arith, held.open_claim) in
      let stale : is_stale st.lease (w'.now 3) held.row ≡ true =
        ground (arith, held.open_claim, held.made, early m, late 3) in
      let stale' : is_stale st.lease (w'.now 4) held.row ≡ true =
        ground (arith, held.open_claim, held.made, early m, late 4) in
      let after = (begin st auth key fp w ks).1 in
      let whole = begin_on_row st auth' key fp w' after quiet held.row row valid named live in
      let took =
        take_over-stale st auth' key _ held.row
          (quiet 4 held.row _ (seen-SoleRow st auth' key fp w' after quiet held.row row)) fp
          (w'.now 4) stale' in
      ap (λ x. x.0) whole
      ∙ on_stale st auth' key fp w' (begin_loop st auth' key fp w' 1 5) held.row _ held.same stale
          took.0

  -- A Begin on a key whose claim was answered.
  pub answered-begin :
      (since : ℕ) (before : Keys)
      → Held st.retention auth.scope.id key fp since before
      → is_some (validate_key key) ≡ false
      → (res : CapturedResponse) (at : ℕ) → (complete st auth key res at before).0 ≡ done
      → auth_valid auth' ≡ true
      → auth'.scope.id ≡ auth.scope.id
      → Quiet w' auth'.scope.id key
      → w'.now 1 < since + st.retention
      → (begin st auth' key fp w' (complete st auth key res at before).1).0 ≡ (
          if res.overflow
          then refused not_replayable
          else replay (record {
            fingerprint = fp;
            state = completed;
            status_code = res.status;
            headers = decode_headers st.canonical (encode_headers st.canonical res.headers);
            body = res.body;
            replayable = true;
            lease_expired = false;
          }))
  answered-begin since before held named res at recorded_it valid same quiet soon =
      let row =
        subst
          (λ t.
            SoleRow t key (answered_row st res at held.row) (complete st auth key res at before).1)
          (sym same)
          (complete-SoleRow st auth key res at before held.row held.stored held.open_claim
            recorded_it) in
      let live : is_expired (w'.now 1) (answered_row st res at held.row) ≡ false =
        ground (arith, held.lasts, soon) in
      let whole =
        begin_on_row st auth' key fp w' (complete st auth key res at before).1 quiet
          (answered_row st res at held.row) row valid named live in
      ap (λ x. x.0) whole
      ∙ on_completed st auth' key fp w' (begin_loop st auth' key fp w' 1 5)
          (answered_row st res at held.row) _ refl held.same
      ∙ replays st auth key res at (complete st auth key res at before).1 held.row (w'.now 3) fp
          held.same

  -- A retry is answered with what the first request was: after a Begin that said to proceed, and a
  -- Complete that recorded its response, the same request with the same key, of any caller of the
  -- tenant and before the record's retention ends, gets the recorded status, headers and body, or,
  -- where the response was too large to be kept, is told that it cannot be replayed.
  pub complete-begin :
      Keyed auth.scope.id key ks
      → ((n : ℕ) (k : Keys) → Keyed auth.scope.id key k → Keyed auth.scope.id key (w.others n k))
      → (begin st auth key fp w ks).0 ≡ proceed
      → (since : ℕ) → ((n : ℕ) → since ≤ w.now n)
      → (res : CapturedResponse) (at : ℕ)
      → (complete st auth key res at (begin st auth key fp w ks).1).0 ≡ done
      → auth_valid auth' ≡ true
      → auth'.scope.id ≡ auth.scope.id
      → Quiet w' auth'.scope.id key
      → ((n : ℕ) → w'.now n < since + st.retention)
      → (begin st auth' key fp w' (complete st auth key res at (begin st auth key fp w ks).1).1).0
        ≡ (if res.overflow
            then refused not_replayable
            else replay (record {
              fingerprint = fp;
              state = completed;
              status_code = res.status;
              headers = decode_headers st.canonical (encode_headers st.canonical res.headers);
              body = res.body;
              replayable = true;
              lease_expired = false;
            }))
  complete-begin keyed safe h since early res at recorded_it valid same quiet soon =
      let (m, held) = begin-Held st auth key fp w safe ks keyed h in
      let (_, named) = begin-valid st auth key fp w ks h in
      answered-begin (w.now m) (begin st auth key fp w ks).1 held named res at recorded_it valid
        same quiet (omega (arith, early m, soon 1))
