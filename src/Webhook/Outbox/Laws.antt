-- ===== src/Webhook/Outbox/Laws.antt =====
-- The statement that Settle of internal/webhook/store.go runs, and the three ways to run it.
pub mod Fence
pub mod Requeue
pub mod Spent
use tenant_api_platform.Prelude.{
  ℕ, ◌+◌, ◌≤◌, ◌<◌, Bool, true, false, not, Option, none, some, List, [], ◌∷◌, ◌≡◌, ◌≢◌, ◌⊎◌, refl,
  sym, ◌∙◌, ap, arith, inl, inr, Option-cases, Bool-cases, find, update, find-update-none, ◌==◌,
  length, All, All-update,
}
use tenant_api_platform.Webhook.Backoff.{Floats, next_delay, max_attempts}
use tenant_api_platform.Webhook.Outbox.Rows.{
  Row, Outbox, pending, dead, delivered, row_ok, status_ok, is_delivering,
}
use tenant_api_platform.Webhook.Outbox.Settle.{
  recorded_status, constraint_violated, SendResult, succeeded, SettleError, no_attempt, lease_lost,
  dead_letter, constraint_violated, owns, mark_delivered, mark_failed, settle_where, Due, settle,
}

-- The outcomes that were written.
abbrev pub Written : Option SettleError → Type 0
Written e = (e ≡ none) ⊎ (e ≡ some dead_letter)

module _ {P : Type 0} (own : Row P → Bool) (f : Row P → Row P) (last : Bool) (o : Outbox P) where
  pub settle_where-Written :
      Written (settle_where own f last o).0
      → (settle_where own f last o).1 ≡ record o { rows = update own f o.rows }
  unfolding settle_where
  settle_where-Written h = elim (Option-cases (find own o.rows)) [
    | inl missing ↦ absurd (ground arith)
    | inr (r, e) ↦ ground arith
  ]

  pub settle_where-invalid :
      (r : Row P)
      → find own o.rows ≡ some r
      → row_ok (f r) ≡ false
      → settle_where own f last o ≡ (some constraint_violated, o)
  unfolding settle_where
  settle_where-invalid r e h = ground arith

  pub settle_where-none : find own o.rows ≡ none → settle_where own f last o ≡ (some lease_lost, o)
  unfolding settle_where
  settle_where-none h = ground arith

  pub settle_where-All :
      (Q : Row P → Type 0)
      → ((r : Row P) → Q r → Q (f r))
      → All Q o.rows
      → All Q (settle_where own f last o).1.rows
  unfolding settle_where
  settle_where-All Q step h = elim (Option-cases (find own o.rows)) [
    | inl missing ↦ rw missing h
    | inr (r, e) ↦ elim (Bool-cases (row_ok (f r))) [
      | inl k ↦ rw (e, k) (All-update Q own f (λ x q s. step x q) o.rows h)
      | inr k ↦ rw (e, k) h
    ]
  ]

  pub settle_where-dead_letter : (settle_where own f last o).0 ≡ some dead_letter → last ≡ true
  unfolding settle_where
  settle_where-dead_letter h = elim (Option-cases (find own o.rows)) [
    | inl missing ↦ absurd (ground arith)
    | inr (r, e) ↦ ground arith
  ]

  pub settle_where-unwritten :
      (settle_where own f last o).0 ≢ none
      → (settle_where own f last o).0 ≢ some dead_letter
      → (settle_where own f last o).1 ≡ o
  unfolding settle_where
  settle_where-unwritten h k = elim (Option-cases (find own o.rows)) [
    | inl missing ↦ ground arith
    | inr (r, e) ↦ ground arith
  ]

-- How one call of Settle rewrites the row that it owns.
pub record Outcome {P : Type 0} (F : Floats) (jitter : F.Float) (d : Due) (res : SendResult)
    (app_now db_now : ℕ) (o : Outbox P) : Type 0 where
  pub rewrite : Row P → Row P
  pub last : Bool
  pub settles :
      settle F jitter d res app_now db_now o
      ≡ settle_where (owns d.id d.attempt db_now) rewrite last o
  pub keeps : (r : Row P) → ((rewrite r).id ≡ r.id) × ((rewrite r).attempts ≡ r.attempts)
  pub rests : (r : Row P) → is_delivering (rewrite r).state ≡ false
  pub status : (r : Row P) → (rewrite r).last_status ≡ recorded_status res res.error
  pub exhausted : last ≡ true → (succeeded res ≡ false) × (max_attempts ≤ d.attempt)

module _ {P : Type 0} (F : Floats) (jitter : F.Float) (d : Due) (res : SendResult)
    (app_now db_now : ℕ) (o : Outbox P) where
  Outcome-delivered : d.attempt ≢ 0 → succeeded res ≡ true → Outcome F jitter d res app_now db_now o
  unfolding settle row_ok
  Outcome-delivered n s = record {
    rewrite = mark_delivered res app_now db_now;
    last = false;
    settles = ground arith;
    keeps = λ r. (refl, refl);
    rests = λ r. refl;
    status = λ r. refl;
    exhausted = λ e. cc;
  }

  last_attempt :
      {delay : ℕ} → next_delay F d.attempt jitter ≡ (delay, false) → max_attempts ≤ d.attempt
  unfolding next_delay
  last_attempt e = ground arith

  Outcome-failed :
      d.attempt ≢ 0
      → succeeded res ≡ false
      → (v : ℕ × Bool) → next_delay F d.attempt jitter ≡ v
      → Outcome F jitter d res app_now db_now o
  unfolding settle row_ok
  Outcome-failed n s (delay, true) e = record {
    rewrite = mark_failed res pending (app_now + delay);
    last = false;
    settles = ground arith;
    keeps = λ r. (refl, refl);
    rests = λ r. refl;
    status = λ r. refl;
    exhausted = λ e. cc;
  }
  Outcome-failed n s (delay, false) e = record {
    rewrite = mark_failed res dead app_now;
    last = true;
    settles = ground arith;
    keeps = λ r. (refl, refl);
    rests = λ r. refl;
    status = λ r. refl;
    exhausted = λ _. (s, last_attempt e);
  }

  pub outcome : d.attempt ≢ 0 → Outcome F jitter d res app_now db_now o
  outcome n = elim (Bool-cases (succeeded res)) [
    | inl s ↦ Outcome-delivered n s
    | inr s ↦ Outcome-failed n s (next_delay F d.attempt jitter) refl
  ]
