-- ===== src/Webhook/Tests.antt =====
-- Deliveries that are settled, and the schedule of the retries (internal/webhook).
use tenant_api_platform.Prelude.{
  false, ℕ, ◌+◌, ◌*◌, ◌/◌, ltb, some, none, [], ◌∷◌, ◌≡◌, ◌≢◌, inl, refl, arith, find,
}
use tenant_api_platform.Webhook.Events.{invoice_paid}
use tenant_api_platform.Webhook.Backoff.{Floats}
use tenant_api_platform.Webhook.Outbox.Rows.{Row, Outbox, delivering, dead, row_ok}
use tenant_api_platform.Webhook.Outbox.Settle.{
  SendResult, succeeded, constraint_violated, lease_lost, Due, owns, settle, settle_where,
}
use tenant_api_platform.Authz.Roles.{admin, valid_role}
use tenant_api_platform.Tenant.{Authorized, kind_human, auth_valid, scope_valid}
use tenant_api_platform.Webhook.Outbox.Replay.{replay, replayed, requeue}
use tenant_api_platform.Webhook.Outbox.Laws.Requeue.{Replayed, replay-Replayed}
use tenant_api_platform.Webhook.Outbox.Laws.{Written}
use tenant_api_platform.Webhook.Outbox.Laws.Fence.{settle-constraint_violated}
use tenant_api_platform.Webhook.Outbox.Laws.Spent.{here, next, claims, settle-once}
use tenant_api_platform.Webhook.Outbox.Queue.{claim}
use tenant_api_platform.Webhook.Backoff.{next_delay, nominal_backoff}

-- Fractions in hundredths.
abbrev floats : Floats
floats = record {
  Float = ℕ;
  fzero = 0;
  fone = 100;
  half = 50;
  flt = ltb;
  fadd = λ a b. a + b;
  fmul = λ a b. a * b / 100;
  of_int = λ n. n * 100;
  round = λ a. (a + 50) / 100;
}

abbrev paid_row : ℕ → Row ℕ
paid_row attempts = record {
  id = 80;
  tenant_id = 7;
  endpoint_id = 90;
  event = invoice_paid;
  event_id = 70;
  payload = 0;
  state = delivering;
  attempts = attempts;
  replays = 0;
  next_at = 10;
  lease_expires_at = some 100;
  last_error = none;
  last_status = none;
  delivered_at = none;
  created_at = 10;
}

abbrev claimed : ℕ → Outbox ℕ
claimed attempts = record { endpoints = []; rows = paid_row attempts ∷ [] }

abbrev due : ℕ → Due
due attempt = record { id = 80; attempt = attempt }

abbrev answered : ℕ → SendResult
answered code = record { status_code = code; error = none }

-- The first attempt fails, and the row is claimed for the second.
abbrev failed_once : Outbox ℕ
failed_once = (settle floats 50 (due 1) (answered 500) 20 20 (claimed 1)).1

abbrev claimed_again : Outbox ℕ
claimed_again = (claim (λ id. false) 5000000000000 10 failed_once).1

first_failed : Written (settle floats 50 (due 1) (answered 500) 20 20 (claimed 1)).0
unfolding settle succeeded settle_where owns row_ok next_delay nominal_backoff
first_failed = inl refl

settle-once_example :
    settle floats 50 (due 1) (answered 204) 5000000000030 5000000000030 claimed_again
    ≡ (some lease_lost, claimed_again)
settle-once_example =
    settle-once floats (due 1) 50 50 (answered 500) (answered 204) 20 5000000000030 20 5000000000030
      (claimed 1) claimed_again (tt, tt) first_failed
      (next here (claims (λ id. false) 5000000000000 10))

owned_row : find (owns 80 6 20) (claimed 6).rows ≡ some (paid_row 6)
unfolding owns
owned_row = refl

attempt_six : (due 6).attempt ≢ 0
attempt_six e = cc

settle-constraint_violated_example :
    settle floats 50 (due 6) (answered 999) 20 20 (claimed 6)
    ≡ (some constraint_violated, claimed 6)
settle-constraint_violated_example =
    settle-constraint_violated floats (due 6) 50 (answered 999) 20 20 (claimed 6) (paid_row 6)
      attempt_six refl (omega arith) owned_row

abbrev alice : Authorized
alice = record {
  scope = record { id = 7 };
  kind = kind_human;
  user_id = 3;
  role = admin;
  key_id = 0;
}

abbrev dead_row : Row ℕ
dead_row = record (paid_row 6) { state = dead; lease_expires_at = none; last_status = some 503 }

abbrev dead_letters : Outbox ℕ
dead_letters = record { endpoints = []; rows = dead_row ∷ [] }

replay-alice : (replay alice 80 500 dead_letters).0 ≡ replayed (requeue 500 dead_row)
unfolding replay auth_valid scope_valid valid_role
replay-alice = refl

replay-Replayed_example :
    Replayed alice 80 500 (requeue 500 dead_row) dead_letters (replay alice 80 500 dead_letters).1
replay-Replayed_example =
    replay-Replayed alice 80 500 dead_letters (requeue 500 dead_row) replay-alice
