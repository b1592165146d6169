-- ===== src/Idempotency/Middleware.antt =====
-- internal/httpx/idempotency.go: the middleware that claims a key, runs the handler once and records
-- its response.
--
-- `S` is what the handler changes. The clock and the other requests of Begin are a World; Complete
-- runs at a time of its own, on what others have made of the table while the handler ran. A store is
-- always supplied.
pub mod Laws
use tenant_api_platform.Prelude.{
  ℕ, Bool, true, false, not, ◌||◌, Err, Option, none, some, List, [], ◌∷◌, ltb, ◌==◌, if◌then◌else◌,
  length,
}
use tenant_api_platform.Prelude.Runes.{Runes, runes, runes_eq, trim_space}
use tenant_api_platform.Audit.{is_empty}
use tenant_api_platform.Httperr.{map_error}
use tenant_api_platform.Tenant.{Authorized}
use tenant_api_platform.Idempotency.Protocol.{
  Header, ProtocolError, key_blank, key_too_long, fingerprint_mismatch, in_progress_now,
  not_replayable, needs_privileged_role, validate_key, Hashes, fingerprint, CapturedResponse,
  new_capture, Written, capture_from, captured,
}
use tenant_api_platform.Idempotency.Store.{
  KeyStore, Keys, World, Recorded, Begun, proceed, replay, refused, failed, begin, complete, done,
}

-- What reading the request's body comes to.
pub data BodySource : Type 0 where
  no_body unreadable : BodySource
  content : List ℕ → BodySource

-- The parts of a request that the middleware reads. `pattern` is chi's RoutePattern, empty where no
-- route was matched.
pub record Request : Type 0 where
  pub method : Runes
  pub path : Runes
  pub pattern : Runes
  pub raw_query : Runes
  pub keys : List Runes
  pub caller : Option Authorized
  pub body : BodySource

-- What a handler writes, and the headers that it sets.
pub record Handled : Type 0 where
  pub headers : Header
  pub writes : List Written

pub data Response : Type 0 where
  answer : Handled → Response
  replayed : ℕ → Recorded → Response
  problem : ℕ → Response

abbrev pub idempotent_methods : Runes → Bool
idempotent_methods m =
    runes_eq m (runes "POST")
    || runes_eq m (runes "PATCH")
    || runes_eq m (runes "DELETE")
    || runes_eq m (runes "PUT")

abbrev pub max_body_bytes : ℕ
max_body_bytes = 1048576

-- readBodyOnce: the body, or the status of the refusal.
pub data BodyRead : Type 0 where
  body_read : List ℕ → BodyRead
  body_refused : ℕ → BodyRead

unfoldable pub read_body_once : BodySource → BodyRead
read_body_once no_body = body_read []
read_body_once unreadable = body_refused 400
read_body_once (content b) = if ltb max_body_bytes (length b) then body_refused 413 else body_read b

-- routePattern.
unfoldable pub route_pattern : Request → Runes
route_pattern r = if is_empty r.pattern then r.path else r.pattern

-- writeIdempotencyError.
abbrev pub error_status : ProtocolError → ℕ
error_status key_blank = 400
error_status key_too_long = 400
error_status in_progress_now = 409
error_status fingerprint_mismatch = 422
error_status not_replayable = 409
error_status needs_privileged_role = 500

-- writeReplay: a status that is missing is 200.
abbrev pub write_replay : Recorded → Response
write_replay rec = replayed (if rec.status_code == 0 then 200 else rec.status_code) rec

module _ {S : Type 0} where
  -- The handler runs under a capture, and what it wrote is recorded.
  abbrev pub run_protected :
      KeyStore → Authorized → Runes → ℕ → (Keys → Keys) → Handled × S → Keys → Response × Keys × S
  run_protected st auth key at others (h, s) ks = (
    answer h,
    (complete st auth key (captured h.headers (capture_from new_capture h.writes)) at
        (others ks)).1,
    s,
  )

  abbrev pub on_begun :
      KeyStore
      → Authorized
      → Runes
      → ℕ
      → (Keys → Keys)
      → (S → Handled × S)
      → S
      → Begun × Keys
      → Response × Keys × S
  on_begun st auth key at others handler s (proceed, ks) =
      run_protected st auth key at others (handler s) ks
  on_begun st auth key at others handler s (replay rec, ks) = (write_replay rec, ks, s)
  on_begun st auth key at others handler s (refused e, ks) = (problem (error_status e), ks, s)
  on_begun st auth key at others handler s (failed e, ks) = (problem (map_error e).status, ks, s)

  abbrev pub with_body :
      KeyStore
      → Hashes
      → World
      → ℕ
      → (Keys → Keys)
      → (S → Handled × S)
      → Request
      → Runes
      → Authorized
      → BodyRead
      → Keys
      → S
      → Response × Keys × S
  with_body st hs w at others handler r key auth (body_refused status) ks s =
      (problem status, ks, s)
  with_body st hs w at others handler r key auth (body_read b) ks s =
      on_begun st auth key at others handler s
        (begin st auth key (fingerprint hs r.method (route_pattern r) r.raw_query b) w ks)

  abbrev pub with_caller :
      KeyStore
      → Hashes
      → World
      → ℕ
      → (Keys → Keys)
      → (S → Handled × S)
      → Request
      → Runes
      → Option ProtocolError
      → Option Authorized
      → Keys
      → S
      → Response × Keys × S
  with_caller st hs w at others handler r key (some e) caller ks s =
      (problem (error_status e), ks, s)
  with_caller st hs w at others handler r key none none ks s = (problem 500, ks, s)
  with_caller st hs w at others handler r key none (some auth) ks s =
      with_body st hs w at others handler r key auth (read_body_once r.body) ks s

  abbrev pub unprotected : Handled × S → Keys → Response × Keys × S
  unprotected (h, s) ks = (answer h, ks, s)

  abbrev pub with_keys :
      KeyStore
      → Hashes
      → World
      → ℕ
      → (Keys → Keys)
      → (S → Handled × S)
      → Request
      → List Runes
      → Keys
      → S
      → Response × Keys × S
  with_keys st hs w at others handler r [] ks s = unprotected (handler s) ks
  with_keys st hs w at others handler r (value ∷ values) ks s =
      with_caller st hs w at others handler r (trim_space value) (validate_key (trim_space value))
        r.caller ks s

  -- The middleware Idempotency around a handler.
  unfoldable pub serve :
      KeyStore
      → Hashes
      → World
      → ℕ
      → (Keys → Keys)
      → (S → Handled × S)
      → Request
      → Keys
      → S
      → Response × Keys × S
  serve st hs w at others handler r ks s =
      if not (idempotent_methods r.method)
      then unprotected (handler s) ks
      else with_keys st hs w at others handler r r.keys ks s
