-- ===== src/Webhook/Outbox/Settle.antt =====
-- Settle of internal/webhook/store.go: the outcome of an attempt, and the fence around it.
use tenant_api_platform.Prelude.{
  ℕ, ◌+◌, Bool, true, false, not, ◌&&◌, Option, none, some, ltb, leb, ◌==◌, if◌then◌else◌, find,
  update,
}
use tenant_api_platform.Prelude.Runes.{Runes}
use tenant_api_platform.Audit.{is_some}
use tenant_api_platform.Webhook.Backoff.{Floats, next_delay}
use tenant_api_platform.Webhook.Outbox.Rows.{
  DeliveryState, pending, delivered, dead, is_delivering, is_dead, LastError, transport,
  receiver_returned, Row, Outbox, row_ok,
}

pub record SendResult : Type 0 where
  pub status_code : ℕ
  pub error : Option Runes

unfoldable pub succeeded : SendResult → Bool
succeeded r = not (is_some r.error) && leb 200 r.status_code && ltb r.status_code 300

-- The errors of Settle.
pub data SettleError : Type 0 where
  no_attempt lease_lost dead_letter constraint_violated : SettleError

abbrev pub in_force : ℕ → Option ℕ → Bool
in_force now none = false
in_force now (some t) = ltb now t

-- The fence: the lease is in force and the attempt is the one that was claimed.
unfoldable pub owns : {P : Type 0} → ℕ → ℕ → ℕ → Row P → Bool
owns id attempt now r =
    r.id == id && is_delivering r.state && in_force now r.lease_expires_at && r.attempts == attempt

abbrev recorded_error : SendResult → Option Runes → Option LastError
recorded_error res (some msg) = some (transport msg)
recorded_error res none =
    if leb 200 res.status_code && ltb res.status_code 300
    then none
    else some (receiver_returned res.status_code)

abbrev pub recorded_status : SendResult → Option Runes → Option ℕ
recorded_status res (some msg) = none
recorded_status res none = some res.status_code

-- The UPDATE of a delivered row.
abbrev pub mark_delivered : {P : Type 0} → SendResult → ℕ → ℕ → Row P → Row P
mark_delivered res app_now db_now r = record r {
  state = delivered;
  delivered_at = some db_now;
  lease_expires_at = none;
  next_at = app_now;
  last_error = none;
  last_status = recorded_status res res.error;
}

-- The UPDATE of a failed attempt, to `pending` or `dead`.
abbrev pub mark_failed : {P : Type 0} → SendResult → DeliveryState → ℕ → Row P → Row P
mark_failed res state next_at r = record r {
  state = state;
  lease_expires_at = none;
  next_at = next_at;
  last_error = recorded_error res res.error;
  last_status = recorded_status res res.error;
}

-- Zero rows are a lost lease; a row that breaks a CHECK rolls the statement back; the dead letter
-- is reported after the commit.
abbrev settle_found :
    {P : Type 0}
    → (Row P → Bool)
    → (Row P → Row P)
    → Bool
    → Option (Row P)
    → Outbox P
    → Option SettleError × Outbox P
settle_found own f is_dead none o = (some lease_lost, o)
settle_found own f is_dead (some r) o =
    if not (row_ok (f r))
    then (some constraint_violated, o)
    else (if is_dead then some dead_letter else none, record o { rows = update own f o.rows })

unfoldable pub settle_where :
    {P : Type 0}
    → (Row P → Bool)
    → (Row P → Row P)
    → Bool
    → Outbox P
    → Option SettleError × Outbox P
settle_where own f is_dead o = settle_found own f is_dead (find own o.rows) o

-- What the claim hands to the worker, as far as Settle reads it.
pub record Due : Type 0 where
  pub id : ℕ
  pub attempt : ℕ

abbrev settle_failed :
    {P : Type 0} → Due → SendResult → ℕ → ℕ → ℕ × Bool → Outbox P → Option SettleError × Outbox P
settle_failed d res app_now db_now (delay, true) o =
    settle_where (owns d.id d.attempt db_now) (mark_failed res pending (app_now + delay)) false o
settle_failed d res app_now db_now (delay, false) o =
    settle_where (owns d.id d.attempt db_now) (mark_failed res dead app_now) true o

unfoldable pub settle :
    {P : Type 0} (F : Floats)
    → F.Float
    → Due
    → SendResult
    → ℕ
    → ℕ
    → Outbox P
    → Option SettleError × Outbox P
settle F jitter d res app_now db_now o =
    if d.attempt == 0
    then (some no_attempt, o)
    else if succeeded res
    then settle_where (owns d.id d.attempt db_now) (mark_delivered res app_now db_now) false o
    else settle_failed d res app_now db_now (next_delay F d.attempt jitter) o
