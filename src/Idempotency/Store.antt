-- ===== src/Idempotency/Store.antt =====
-- internal/idempotency/store.go on the table of migration 0006: Begin, Complete and Sweep.
--
-- Begin is a sequence of transactions, numbered from 0. `World` says at what time each of them runs
-- and what other requests have committed before it. A valid caller's identity is valid, so
-- WithIdentityTx runs its closure.
pub mod Rows
pub mod Claimed
pub mod Outcomes
pub mod Sweep
use tenant_api_platform.Prelude.{
  ℕ, zero, suc, ◌+◌, ◌*◌, Bool, true, false, not, ◌&&◌, ◌||◌, Err, no_scope, validation, internal,
  Option, none, some, List, [], ◌∷◌, ◌++◌, ltb, leb, ◌==◌, if◌then◌else◌, find, select, update,
  take, length, any,
}
use tenant_api_platform.Prelude.Int64.{ℤ, pos, negsuc, leb_ℤ}
use tenant_api_platform.Prelude.Runes.{Runes, runes_eq}
use tenant_api_platform.Audit.{is_some}
use tenant_api_platform.Tenant.{Authorized, auth_valid, is_machine}
use tenant_api_platform.Idempotency.Protocol.{
  Header, ProtocolError, fingerprint_mismatch, in_progress_now, not_replayable,
  needs_privileged_role, validate_key, CapturedResponse, is_replayable,
}
use tenant_api_platform.Idempotency.Headers.{encode_headers, decode_headers}

pub data KeyState : Type 0 where
  in_progress completed : KeyState

abbrev pub is_completed : KeyState → Bool
is_completed completed = true
is_completed in_progress = false

pub record KeyRow : Type 0 where
  pub tenant_id : ℕ
  pub key : Runes
  pub fingerprint : ℕ
  pub state : KeyState
  pub status_code : Option ℕ
  pub response_headers : Header
  pub response_body : List ℕ
  pub replayable : Bool
  pub actor_id : ℕ
  pub created_at : ℕ
  pub completed_at : Option ℕ
  pub expires_at : ℕ

abbrev pub Keys : Type 0
Keys = List KeyRow

-- Store, with the function that it calls of net/http. Durations are in nanoseconds.
pub record KeyStore : Type 0 where
  pub retention : ℕ
  pub lease : ℕ
  pub canonical : Runes → Runes

abbrev pub default_lease : ℕ
default_lease = 60000000000

abbrev pub default_retention : ℕ
default_retention = 86400000000000

abbrev pub or_default : ℕ → ℤ → ℕ
or_default d (pos zero) = d
or_default d (pos (suc n)) = suc n
or_default d (negsuc n) = d

-- NewStore.
abbrev pub new_store : (Runes → Runes) → ℤ → ℤ → KeyStore
new_store canonical retention lease = record {
  retention = or_default default_retention retention;
  lease = or_default default_lease lease;
  canonical = canonical;
}

-- actorID.
abbrev pub actor_id : Authorized → ℕ
actor_id auth = if is_machine auth then auth.key_id else auth.user_id

-- WHERE tenant_id = $1 AND key = $2.
abbrev pub at_key : ℕ → Runes → KeyRow → Bool
at_key tenant_id key r = r.tenant_id == tenant_id && runes_eq r.key key

abbrev pub new_claim : KeyStore → Authorized → Runes → ℕ → ℕ → KeyRow
new_claim st auth key fp now = record {
  tenant_id = auth.scope.id;
  key = key;
  fingerprint = fp;
  state = in_progress;
  status_code = none;
  response_headers = [];
  response_body = [];
  replayable = true;
  actor_id = actor_id auth;
  created_at = now;
  completed_at = none;
  expires_at = now + st.retention;
}

abbrev insert_on : KeyStore → Authorized → Runes → ℕ → ℕ → Option KeyRow → Keys → Bool × Keys
insert_on st auth key fp now none ks = (true, ks ++ new_claim st auth key fp now ∷ [])
insert_on st auth key fp now (some r) ks = (false, ks)

-- INSERT ... ON CONFLICT DO NOTHING.
unfoldable pub insert_claim : KeyStore → Authorized → Runes → ℕ → ℕ → Keys → Bool × Keys
insert_claim st auth key fp now ks =
    insert_on st auth key fp now (find (at_key auth.scope.id key) ks) ks

abbrev pub is_expired : ℕ → KeyRow → Bool
is_expired now r = is_completed r.state && leb r.expires_at now

-- clearExpired.
unfoldable pub clear_expired : Authorized → Runes → ℕ → Keys → Bool × Keys
clear_expired auth key now ks = (
  is_some (find (λ r. at_key auth.scope.id key r && is_expired now r) ks),
  select (λ r. not (at_key auth.scope.id key r && is_expired now r)) ks,
)

-- The lease has passed: created_at < now() - lease.
abbrev pub is_stale : ℕ → ℕ → KeyRow → Bool
is_stale lease now r = not (is_completed r.state) && ltb (r.created_at + lease) now

abbrev pub retaken : KeyStore → Authorized → ℕ → ℕ → KeyRow → KeyRow
retaken st auth fp now r = record r {
  fingerprint = fp;
  actor_id = actor_id auth;
  created_at = now;
  expires_at = now + st.retention;
}

-- takeOver.
unfoldable pub take_over : KeyStore → Authorized → Runes → ℕ → ℕ → Keys → Bool × Keys
take_over st auth key fp now ks = (
  is_some (find (λ r. at_key auth.scope.id key r && is_stale st.lease now r) ks),
  update (λ r. at_key auth.scope.id key r && is_stale st.lease now r) (retaken st auth fp now) ks,
)

pub record World : Type 0 where
  pub now : ℕ → ℕ
  pub others : ℕ → Keys → Keys

-- tryClaim, in the transactions from `n` on.
abbrev pub claim_again : KeyStore → Authorized → Runes → ℕ → World → ℕ → Bool × Keys → Bool × Keys
claim_again st auth key fp w n (false, ks) = (false, ks)
claim_again st auth key fp w n (true, ks) =
    insert_claim st auth key fp (w.now (n + 2)) (w.others (n + 2) ks)

abbrev pub claim_or_clear :
    KeyStore → Authorized → Runes → ℕ → World → ℕ → Bool × Keys → Bool × Keys
claim_or_clear st auth key fp w n (true, ks) = (true, ks)
claim_or_clear st auth key fp w n (false, ks) =
    claim_again st auth key fp w n (clear_expired auth key (w.now (n + 1)) (w.others (n + 1) ks))

unfoldable pub try_claim : KeyStore → Authorized → Runes → ℕ → World → ℕ → Keys → Bool × Keys
try_claim st auth key fp w n ks =
    claim_or_clear st auth key fp w n (insert_claim st auth key fp (w.now n) (w.others n ks))

-- Record, as read hands it to the caller.
pub record Recorded : Type 0 where
  pub fingerprint : ℕ
  pub state : KeyState
  pub status_code : ℕ
  pub headers : Header
  pub body : List ℕ
  pub replayable : Bool
  pub lease_expired : Bool

abbrev status_or_zero : Option ℕ → ℕ
status_or_zero none = 0
status_or_zero (some c) = c

abbrev pub recorded : KeyStore → ℕ → KeyRow → Recorded
recorded st now r = record {
  fingerprint = r.fingerprint;
  state = r.state;
  status_code = status_or_zero r.status_code;
  headers = decode_headers st.canonical r.response_headers;
  body = r.response_body;
  replayable = r.replayable;
  lease_expired = is_stale st.lease now r;
}

-- What Begin returns: an outcome or an error.
pub data Begun : Type 0 where
  proceed : Begun
  replay : Recorded → Begun
  refused : ProtocolError → Begun
  failed : Err → Begun

abbrev pub taken : Bool × Keys → Begun × Keys
taken (true, ks) = (proceed, ks)
taken (false, ks) = (refused in_progress_now, ks)

-- The switch on a record that was read with the same fingerprint.
abbrev pub classify_record :
    KeyStore → Authorized → Runes → ℕ → World → ℕ → Recorded → Keys → Begun × Keys
classify_record st auth key fp w n rec ks =
    if is_completed rec.state
    then if rec.replayable then (replay rec, ks) else (refused not_replayable, ks)
    else if rec.lease_expired
    then taken (take_over st auth key fp (w.now (n + 4)) (w.others (n + 4) ks))
    else (refused in_progress_now, ks)

abbrev pub on_record :
    KeyStore
    → Authorized
    → Runes
    → ℕ
    → World
    → ℕ
    → (Keys → Begun × Keys)
    → Option KeyRow
    → Keys
    → Begun × Keys
on_record st auth key fp w n again none ks = again ks
on_record st auth key fp w n again (some r) ks =
    if r.fingerprint == fp
    then classify_record st auth key fp w n (recorded st (w.now (n + 3)) r) ks
    else (refused fingerprint_mismatch, ks)

abbrev pub on_claim :
    KeyStore
    → Authorized
    → Runes
    → ℕ
    → World
    → ℕ
    → (Keys → Begun × Keys)
    → Bool × Keys
    → Begun × Keys
on_claim st auth key fp w n again (true, ks) = (proceed, ks)
on_claim st auth key fp w n again (false, ks) =
    let seen = w.others (n + 3) ks in
    on_record st auth key fp w n again (find (at_key auth.scope.id key) seen) seen

-- The loop of Begin: `attempts` more attempts, from transaction `n` on.
unfoldable pub begin_loop : KeyStore → Authorized → Runes → ℕ → World → ℕ → ℕ → Keys → Begun × Keys
begin_loop st auth key fp w zero n ks = (refused in_progress_now, ks)
begin_loop st auth key fp w (suc attempts) n ks =
    on_claim st auth key fp w n (begin_loop st auth key fp w attempts (n + 5))
      (try_claim st auth key fp w n ks)

-- The method Begin.
unfoldable pub begin : KeyStore → Authorized → Runes → ℕ → World → Keys → Begun × Keys
begin st auth key fp w ks =
    if not (auth_valid auth)
    then (failed no_scope, ks)
    else if is_some (validate_key key)
    then (failed validation, ks)
    else begin_loop st auth key fp w 2 0 ks

-- WHERE tenant_id = $1 AND key = $2 AND state = 'in_progress'.
abbrev pub at_claim : ℕ → Runes → KeyRow → Bool
at_claim tenant_id key r = at_key tenant_id key r && not (is_completed r.state)

abbrev pub answered_row : KeyStore → CapturedResponse → ℕ → KeyRow → KeyRow
answered_row st res now r = record r {
  state = completed;
  status_code = some res.status;
  response_headers = encode_headers st.canonical res.headers;
  response_body = if is_replayable res then res.body else [];
  replayable = is_replayable res;
  completed_at = some now;
}

-- What Complete returns.
pub data Completion : Type 0 where
  done : Completion
  taken_over : Completion
  broken : Err → Completion

-- The method Complete. The CHECK on the status admits 100 to 599.
unfoldable pub complete :
    KeyStore → Authorized → Runes → CapturedResponse → ℕ → Keys → Completion × Keys
complete st auth key res now ks =
    if not (auth_valid auth)
    then (broken no_scope, ks)
    else if not (is_some (find (at_claim auth.scope.id key) ks))
    then (taken_over, ks)
    else if not (leb 100 res.status && leb res.status 599)
    then (broken internal, ks)
    else (done, update (at_claim auth.scope.id key) (answered_row st res now) ks)
