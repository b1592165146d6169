-- ===== src/Idempotency/Middleware/Laws.antt =====
-- What the middleware guarantees of a retried request (internal/httpx/idempotency.go).
use tenant_api_platform.Prelude.{
  ℕ, ◌+◌, ◌≤◌, ◌<◌, true, false, not, Option, none, some, List, ◌∷◌, ◌≡◌, refl, ◌∙◌, ap, arith, inl,
  inr, Bool-cases, ◌==◌, if◌then◌else◌,
}
use tenant_api_platform.Prelude.Runes.{Runes, trim_space}
use tenant_api_platform.Audit.{is_some}
use tenant_api_platform.Tenant.{Authorized, auth_valid}
use tenant_api_platform.Idempotency.Protocol.{
  ProtocolError, not_replayable, validate_key, Hashes, fingerprint, CapturedResponse, new_capture,
  capture_from, captured,
}
use tenant_api_platform.Idempotency.Headers.{encode_headers, decode_headers}
use tenant_api_platform.Idempotency.Store.{
  KeyStore, KeyRow, Keys, World, completed, Recorded, Begun, proceed, replay, refused, begin,
  complete, done,
}
use tenant_api_platform.Idempotency.Store.Rows.{SoleRow}
use tenant_api_platform.Idempotency.Store.Claimed.{Keyed, Held, begin-Held}
use tenant_api_platform.Idempotency.Store.Outcomes.{Quiet, begin-valid, answered-begin}
use tenant_api_platform.Idempotency.Middleware.{
  replayed, Request, Handled, problem, body_read, idempotent_methods, read_body_once, route_pattern,
  write_replay, serve, on_begun, unprotected, with_keys, with_caller, with_body, run_protected,
  error_status,
}

-- A request that carries a key, a caller and a body that can be read.
pub record KeyedRequest (r : Request) (key : Runes) (auth : Authorized) (body : List ℕ)
    : Type 0 where
  pub unsafe : idempotent_methods r.method ≡ true
  pub value : Runes
  pub rest : List Runes
  pub carries : r.keys ≡ value ∷ rest
  pub trimmed : trim_space value ≡ key
  pub caller : r.caller ≡ some auth
  pub content : read_body_once r.body ≡ body_read body

-- The fingerprint that the middleware compares.
abbrev pub fingerprint_of : Hashes → Request → List ℕ → ℕ
fingerprint_of hs r body = fingerprint hs r.method (route_pattern r) r.raw_query body

not_some : {A : Type 0} (o : Option A) → is_some o ≡ false → o ≡ none
not_some none h = refl
not_some (some a) h = cc

module _ {S : Type 0} (st : KeyStore) (hs : Hashes) (handler : S → Handled × S) where
  module _ (w : World) (at : ℕ) (others : Keys → Keys) (r : Request) (key : Runes)
      (auth : Authorized) (body : List ℕ) (ks : Keys) (s : S) (q : KeyedRequest r key auth body)
      (named : validate_key key ≡ none) where
    -- Such a request reaches Begin.
    reaches :
        serve st hs w at others handler r ks s
        ≡ on_begun st auth key at others handler s
            (begin st auth key (fingerprint_of hs r body) w ks)
    unfolding serve
    reaches =
        ap
          (λ b.
            if not b
            then unprotected (handler s) ks
            else with_keys st hs w at others handler r r.keys ks s)
          q.unsafe
        ∙ ap (λ k. with_keys st hs w at others handler r k ks s) q.carries
        ∙ ap (λ k. with_caller st hs w at others handler r k (validate_key k) r.caller ks s)
            q.trimmed
        ∙ ap (λ e. with_caller st hs w at others handler r key e r.caller ks s) named
        ∙ ap (λ c. with_caller st hs w at others handler r key none c ks s) q.caller
        ∙ ap (λ b. with_body st hs w at others handler r key auth b ks s) q.content

    on_begun-eq :
        (x : Begun × Keys) (b : Begun)
        → x.0 ≡ b
        → on_begun st auth key at others handler s x
          ≡ on_begun st auth key at others handler s (b, x.1)
    on_begun-eq x b h = ap (λ c. on_begun st auth key at others handler s (c, x.1)) h

    serve-proceed :
        (begin st auth key (fingerprint_of hs r body) w ks).0 ≡ proceed
        → serve st hs w at others handler r ks s
          ≡ run_protected st auth key at others
              (handler s)
              (begin st auth key (fingerprint_of hs r body) w ks).1
    serve-proceed h = reaches ∙ on_begun-eq _ proceed h

    serve-replay :
        (rec : Recorded)
        → (begin st auth key (fingerprint_of hs r body) w ks).0 ≡ replay rec
        → serve st hs w at others handler r ks s
          ≡ (write_replay rec, (begin st auth key (fingerprint_of hs r body) w ks).1, s)
    serve-replay rec h = reaches ∙ on_begun-eq _ (replay rec) h

    serve-refused :
        (e : ProtocolError)
        → (begin st auth key (fingerprint_of hs r body) w ks).0 ≡ refused e
        → serve st hs w at others handler r ks s
          ≡ (problem (error_status e), (begin st auth key (fingerprint_of hs r body) w ks).1, s)
    serve-refused e h = reaches ∙ on_begun-eq _ (refused e) h

module _ {S : Type 0} (st : KeyStore) (hs : Hashes) (handler : S → Handled × S) (key : Runes)
    (auth auth' : Authorized) (r r' : Request) (body : List ℕ) (w w' : World) (at at' : ℕ)
    (others others' : Keys → Keys) (ks ks' : Keys) (s s' : S) where
  -- What the handler wrote, as it is recorded.
  abbrev pub response : CapturedResponse
  response = captured (handler s).0.headers (capture_from new_capture (handler s).0.writes)

  -- What a retry is given of it.
  abbrev pub kept : Recorded
  kept = record {
    fingerprint = fingerprint_of hs r body;
    state = completed;
    status_code = response.status;
    headers = decode_headers st.canonical (encode_headers st.canonical response.headers);
    body = response.body;
    replayable = true;
    lease_expired = false;
  }

  abbrev pub table_after : Keys
  table_after = (serve st hs w at others handler r ks s).1

  -- A retry does not run the handler again. After a request with a key was let through, in a table
  -- with one row at most for the key, and its response recorded, where no other request changed its claim in between, any valid request of the
  -- tenant with that key and the same method, route pattern, query and body, whatever the paths of the
  -- two, that comes before the retention has passed since the first and meets the record as it was
  -- left, changes nothing that the handler changes, and is
  -- answered with the status, headers and body recorded for the first, or, where that response was
  -- too large to be kept, with a conflict.
  pub serve-once :
      Keyed auth.scope.id key ks
      → ((n : ℕ) (k : Keys) → Keyed auth.scope.id key k → Keyed auth.scope.id key (w.others n k))
      → ((x : KeyRow) (k : Keys)
          → SoleRow auth.scope.id key x k
          → SoleRow auth.scope.id key x (others k))
      → KeyedRequest r key auth body
      → KeyedRequest r' key auth' body
      → r'.method ≡ r.method
      → route_pattern r' ≡ route_pattern r
      → r'.raw_query ≡ r.raw_query
      → (begin st auth key (fingerprint_of hs r body) w ks).0 ≡ proceed
      → (complete st auth key response at
          (others (begin st auth key (fingerprint_of hs r body) w ks).1)).0
        ≡ done
      → (since : ℕ) → ((n : ℕ) → since ≤ w.now n)
      → auth_valid auth' ≡ true
      → auth'.scope.id ≡ auth.scope.id
      → Quiet w' auth'.scope.id key
      → w'.now 1 < since + st.retention
      → ((serve st hs w' at' others' handler r' table_after s').2 ≡ s')
        × ((serve st hs w' at' others' handler r' table_after s').0 ≡ (
            if response.overflow
            then problem 409
            else replayed (if response.status == 0 then 200 else response.status) kept))
  serve-once keyed safe between q q' method route query h recorded_it since early valid same quiet
        soon =
      let fp = fingerprint_of hs r body in
      let first = begin st auth key fp w ks in
      let (m, held) = begin-Held st auth key fp w safe ks keyed h in
      let named = not_some (validate_key key) (begin-valid st auth key fp w ks h).1 in
      let held' : Held st.retention auth.scope.id key fp (w.now m) (others first.1) = record {
        row = held.row;
        stored = between held.row first.1 held.stored;
        open_claim = held.open_claim;
        same = held.same;
        made = held.made;
        lasts = held.lasts;
      } in
      let tables : table_after ≡ (complete st auth key response at (others first.1)).1 =
        ap (λ x. x.1) (serve-proceed st hs handler w at others r key auth body ks s q named h) in
      let prints : fingerprint_of hs r' body ≡ fp = cc (method, route, query) in
      let outcome =
        ap (λ t. (begin st auth' key (fingerprint_of hs r' body) w' t).0) tables
        ∙ ap
            (λ f. (begin st auth' key f w' (complete st auth key response at (others first.1)).1).0)
            prints
        ∙ answered-begin st auth auth' key fp w w' ks (w.now m) (others first.1) held'
            (begin-valid st auth key fp w ks h).1 response at recorded_it valid same quiet
            (omega (arith, early m, soon)) in
      elim (Bool-cases response.overflow) [
        | inl e ↦
            let answered =
              serve-refused st hs handler w' at' others' r' key auth' body table_after s' q' named
                not_replayable (rw e at outcome) in
            rw (answered, e) (refl, refl)
        | inr e ↦
            let answered =
              serve-replay st hs handler w' at' others' r' key auth' body table_after s' q' named
                kept (rw e at outcome) in
            rw (answered, e) (refl, refl)
      ]
