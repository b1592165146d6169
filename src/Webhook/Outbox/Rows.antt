-- ===== src/Webhook/Outbox/Rows.antt =====
-- The tables of endpoints and deliveries (migrations 0010 and 0012) and their CHECK constraints.
use tenant_api_platform.Prelude.{
  ℕ, Bool, true, false, not, ◌&&◌, ◌||◌, Option, none, some, List, leb, ◌==◌, if◌then◌else◌,
}
use tenant_api_platform.Prelude.Runes.{Runes}
use tenant_api_platform.Audit.{is_some}
use tenant_api_platform.Webhook.Events.{EventName}

pub data DeliveryState : Type 0 where
  pending delivering delivered dead : DeliveryState

abbrev pub is_pending : DeliveryState → Bool
is_pending pending = true
is_pending _ = false

abbrev pub is_delivering : DeliveryState → Bool
is_delivering delivering = true
is_delivering _ = false

abbrev pub is_delivered : DeliveryState → Bool
is_delivered delivered = true
is_delivered _ = false

abbrev pub is_dead : DeliveryState → Bool
is_dead dead = true
is_dead _ = false

pub record Endpoint : Type 0 where
  pub id : ℕ
  pub tenant_id : ℕ
  pub url : Runes
  pub secret : Runes
  pub events : List EventName
  pub active : Bool

-- The text of `last_error`.
pub data LastError : Type 0 where
  transport : Runes → LastError
  receiver_returned : ℕ → LastError

pub record Row (P : Type 0) : Type 0 where
  pub id : ℕ
  pub tenant_id : ℕ
  pub endpoint_id : ℕ
  pub event : EventName
  pub event_id : ℕ
  pub payload : P
  pub state : DeliveryState
  pub attempts : ℕ
  pub replays : ℕ
  pub next_at : ℕ
  pub lease_expires_at : Option ℕ
  pub last_error : Option LastError
  pub last_status : Option ℕ
  pub delivered_at : Option ℕ
  pub created_at : ℕ

pub record Outbox (P : Type 0) : Type 0 where
  pub endpoints : List Endpoint
  pub rows : List (Row P)

abbrev pub has_id : {P : Type 0} → ℕ → Row P → Bool
has_id id r = r.id == id

abbrev pub status_ok : Option ℕ → Bool
status_ok none = true
status_ok (some code) = leb 100 code && leb code 599

-- The CHECK constraints of the table.
unfoldable pub row_ok : {P : Type 0} → Row P → Bool
row_ok r =
    status_ok r.last_status
    && (if is_delivered r.state then is_some r.delivered_at else not (is_some r.delivered_at))
    && (not (is_some r.lease_expires_at) || is_delivering r.state)
