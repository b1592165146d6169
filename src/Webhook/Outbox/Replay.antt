-- ===== src/Webhook/Outbox/Replay.antt =====
-- Replay of internal/webhook/store.go: a dead delivery is queued again.
use tenant_api_platform.Prelude.{
  ℕ, ◌+◌, Bool, not, ◌&&◌, Option, none, some, ◌==◌, if◌then◌else◌, find, update,
}
use tenant_api_platform.Tenant.{Authorized, auth_valid}
use tenant_api_platform.Webhook.Outbox.Rows.{pending, is_dead, Row, Outbox}

-- The errors of Replay that are the package's own.
pub data ReplayResult (P : Type 0) : Type 0 where
  replayed : Row P → ReplayResult P
  refused_scope refused_not_found refused_not_dead : ReplayResult P

abbrev pub of_tenant : {P : Type 0} → ℕ → ℕ → Row P → Bool
of_tenant id tenant_id r = r.id == id && r.tenant_id == tenant_id

abbrev pub requeue : {P : Type 0} → ℕ → Row P → Row P
requeue now r = record r {
  state = pending;
  attempts = 0;
  replays = r.replays + 1;
  next_at = now;
  lease_expires_at = none;
}

abbrev replay_found :
    {P : Type 0}
    → ℕ
    → ℕ
    → ℕ
    → Option (Row P)
    → Option (Row P)
    → Outbox P
    → ReplayResult P × Outbox P
replay_found id tenant_id now (some r) other o = (
  replayed (requeue now r),
  record o {
    rows = update (λ x. of_tenant id tenant_id x && is_dead x.state) (requeue now) o.rows;
  },
)
replay_found id tenant_id now none none o = (refused_not_found, o)
replay_found id tenant_id now none (some r) o =
    (if not (is_dead r.state) then refused_not_dead else refused_not_found, o)

unfoldable pub replay : {P : Type 0} → Authorized → ℕ → ℕ → Outbox P → ReplayResult P × Outbox P
replay auth id now o =
    if not (auth_valid auth)
    then (refused_scope, o)
    else if id == 0
    then (refused_not_found, o)
    else replay_found id auth.scope.id now
        (find (λ x. of_tenant id auth.scope.id x && is_dead x.state) o.rows)
        (find (of_tenant id auth.scope.id) o.rows) o
