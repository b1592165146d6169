-- ===== src/Webhook/Outbox/Queue.antt =====
-- Enqueue and Claim of internal/webhook/store.go.
use tenant_api_platform.Prelude.{
  ℕ, ◌+◌, ◌*◌, Bool, false, not, ◌&&◌, ◌||◌, Result, ok, err, internal, Option, none, some, List,
  [], ◌∷◌, ◌++◌, map, ltb, leb, ◌==◌, eqb, if◌then◌else◌, select, update, take, length, any,
}
use tenant_api_platform.Webhook.Events.{EventName, EventName-discrete, known_event}
use tenant_api_platform.Webhook.Backoff.{second}
use tenant_api_platform.Webhook.Outbox.Rows.{
  pending, delivering, is_pending, is_delivering, Endpoint, Row, Outbox, has_id,
}

abbrev pub max_payload_bytes : ℕ
max_payload_bytes = 65536

abbrev pub lease_duration : ℕ
lease_duration = 60 * second

abbrev pub default_batch : ℕ
default_batch = 10

abbrev pub event_in : EventName → List EventName → Bool
unfolding EventName-discrete
event_in e [] = false
event_in e (x ∷ xs) = eqb EventName-discrete e x || event_in e xs

-- The WHERE clause of the fan-out.
unfoldable pub subscribed : ℕ → EventName → Endpoint → Bool
unfolding event_in
subscribed tenant_id event e = e.tenant_id == tenant_id && e.active && event_in event e.events

-- What the check of the size and the fan-out read of an event.
pub record Envelope (P : Type 0) : Type 0 where
  pub tenant_id : ℕ
  pub event : EventName
  pub event_id : ℕ
  pub payload : P
  -- len(payload), of the encoded JSON.
  pub size : ℕ

-- The row of one endpoint; `new_id` stands for gen_random_uuid().
abbrev pub queued : {P : Type 0} → Envelope P → (ℕ → ℕ) → ℕ → Endpoint → Row P
queued env new_id now e = record {
  id = new_id e.id;
  tenant_id = env.tenant_id;
  endpoint_id = e.id;
  event = env.event;
  event_id = env.event_id;
  payload = env.payload;
  state = pending;
  attempts = 0;
  replays = 0;
  next_at = now;
  lease_expires_at = none;
  last_error = none;
  last_status = none;
  delivered_at = none;
  created_at = now;
}

-- Enqueue, which returns the number of rows.
unfoldable pub enqueue : {P : Type 0} → Envelope P → (ℕ → ℕ) → ℕ → Outbox P → Result (ℕ × Outbox P)
unfolding subscribed
enqueue env new_id now o =
    let fan_out = select (subscribed env.tenant_id env.event) o.endpoints in
    if not (known_event env.event)
    then err internal
    else if ltb max_payload_bytes env.size
    then err internal
    else ok (length fan_out, record o { rows = o.rows ++ map (queued env new_id now) fan_out })

-- The WHERE clause of Claim, for the rows that no other transaction holds locked.
abbrev pub lapsed : ℕ → Option ℕ → Bool
lapsed now none = false
lapsed now (some t) = ltb t now

unfoldable pub is_due : {P : Type 0} → (ℕ → Bool) → ℕ → Row P → Bool
is_due locked now r =
    not (locked r.id)
    && (is_pending r.state && leb r.next_at now
        || is_delivering r.state && lapsed now r.lease_expires_at)

-- ORDER BY next_at, id.
abbrev pub before : {P : Type 0} → Row P → Row P → Bool
before a b = ltb a.next_at b.next_at || a.next_at == b.next_at && leb a.id b.id

unfoldable pub insert_row : {P : Type 0} → Row P → List (Row P) → List (Row P)
insert_row r [] = r ∷ []
insert_row r (x ∷ xs) = if before r x then r ∷ x ∷ xs else x ∷ insert_row r xs

unfoldable pub order_rows : {P : Type 0} → List (Row P) → List (Row P)
unfolding insert_row
order_rows [] = []
order_rows (r ∷ rows) = insert_row r (order_rows rows)

abbrev pub lease_row : {P : Type 0} → ℕ → Row P → Row P
lease_row now r = record r {
  state = delivering;
  lease_expires_at = some (now + lease_duration);
  attempts = r.attempts + 1;
}

-- The rows that the common table expression `due` selects.
unfoldable pub due_rows : {P : Type 0} → (ℕ → Bool) → ℕ → ℕ → List (Row P) → List (Row P)
unfolding is_due order_rows
due_rows locked now batch rows =
    take (if batch == 0 then default_batch else batch)
      (order_rows (select (is_due locked now) rows))

abbrev pub in_rows : {P : Type 0} → List (Row P) → Row P → Bool
in_rows chosen r = any (has_id r.id) chosen

-- Claim: the leased rows, and the outbox. The join with the endpoint is on its foreign key.
unfoldable pub claim : {P : Type 0} → (ℕ → Bool) → ℕ → ℕ → Outbox P → List (Row P) × Outbox P
unfolding due_rows
claim locked now batch o =
    let chosen = due_rows locked now batch o.rows in
    (
      map (lease_row now) (select (in_rows chosen) o.rows),
      record o { rows = update (in_rows chosen) (lease_row now) o.rows },
    )
