-- ===== src/Webhook/Outbox/Laws/Fence.antt =====
-- The fence of Settle: who may write an outcome, and how often (internal/webhook/store.go).
use tenant_api_platform.Prelude.{
  ℕ, ◌≤◌, false, Option, none, some, ◌≡◌, ◌≢◌, sym, ◌∙◌, ap, arith, inl, inr, Bool-cases, find,
  ◌==◌, ==_iff,
}
use tenant_api_platform.Webhook.Backoff.{Floats, max_attempts}
use tenant_api_platform.Webhook.Outbox.Rows.{row_ok, Row, Outbox}
use tenant_api_platform.Webhook.Outbox.Settle.{
  recorded_status, constraint_violated, SendResult, SettleError, succeeded, no_attempt, lease_lost,
  dead_letter, owns, Due, settle,
}
use tenant_api_platform.Webhook.Outbox.Laws.{
  settle_where-invalid, Written, outcome, settle_where-none, settle_where-dead_letter,
  settle_where-unwritten,
}

pub Written-attempt : {e : Option SettleError} → e ≡ some no_attempt → Written e → ⊥
Written-attempt e (inl w) = cc
Written-attempt e (inr w) = cc

module _ {P : Type 0} (F : Floats) (d : Due) where
  pub attempted :
      (jitter : F.Float) (res : SendResult) (app_now db_now : ℕ) (o : Outbox P)
      → (settle F jitter d res app_now db_now o).0 ≢ some no_attempt
      → d.attempt ≢ 0
  unfolding settle
  attempted jitter res app_now db_now o h e = ground arith

  -- A settle that finds no row that it owns, because the lease lapsed, the row was claimed again or
  -- it is settled already, changes nothing and says that the lease was lost.
  pub settle-lease_lost :
      (jitter : F.Float) (res : SendResult) (app_now db_now : ℕ) (o : Outbox P)
      → d.attempt ≢ 0
      → find (owns d.id d.attempt db_now) o.rows ≡ none
      → settle F jitter d res app_now db_now o ≡ (some lease_lost, o)
  settle-lease_lost jitter res app_now db_now o n missing =
      let c = outcome F jitter d res app_now db_now o n in
      c.settles ∙ settle_where-none _ c.rewrite c.last o missing

  pub no_attempt-eq :
      (jitter : F.Float) (res : SendResult) (app_now db_now : ℕ) (o : Outbox P)
      → d.attempt ≡ 0
      → settle F jitter d res app_now db_now o ≡ (some no_attempt, o)
  unfolding settle
  no_attempt-eq jitter res app_now db_now o e = ground arith

  -- A settle that reports anything but success or a dead letter has changed nothing.
  pub settle-unwritten :
      (jitter : F.Float) (res : SendResult) (app_now db_now : ℕ) (o : Outbox P)
      → ¬ Written (settle F jitter d res app_now db_now o).0
      → (settle F jitter d res app_now db_now o).1 ≡ o
  settle-unwritten jitter res app_now db_now o h = elim (Bool-cases (d.attempt == 0)) [
    | inl e ↦ ap (λ x. x.1) (no_attempt-eq jitter res app_now db_now o ((==_iff _ _).0 e))
    | inr e ↦
        let c = outcome F jitter d res app_now db_now o (λ z. cc (e, (==_iff d.attempt 0).1 z)) in
        ap (λ x. x.1) c.settles
        ∙ settle_where-unwritten _ c.rewrite c.last o (λ k. h (inl (ap (λ x. x.0) c.settles ∙ k)))
            (λ k. h (inr (ap (λ x. x.0) c.settles ∙ k)))
  ]

  -- A dead letter is reported only for a failure of the last attempt.
  settle-dead_letter :
      (jitter : F.Float) (res : SendResult) (app_now db_now : ℕ) (o : Outbox P)
      → (settle F jitter d res app_now db_now o).0 ≡ some dead_letter
      → (succeeded res ≡ false) × (max_attempts ≤ d.attempt)
  settle-dead_letter jitter res app_now db_now o h =
      let c =
        outcome F jitter d res app_now db_now o (attempted jitter res app_now db_now o (λ e. cc)) in
      c.exhausted
        (settle_where-dead_letter _ c.rewrite c.last o (ap (λ x. x.0) (sym c.settles) ∙ h))

  bad_row : (r : Row P) (code : ℕ) → r.last_status ≡ some code → 600 ≤ code → row_ok r ≡ false
  unfolding row_ok
  bad_row r code e h = ground arith

  -- No answer of a receiver with a status of 600 or more is ever recorded: the settle breaks the
  -- table's constraint on the status and changes nothing, at whatever attempt, the last included, so
  -- such a delivery does not become a dead letter either.
  pub settle-constraint_violated :
      (jitter : F.Float) (res : SendResult) (app_now db_now : ℕ) (o : Outbox P) (r : Row P)
      → d.attempt ≢ 0
      → res.error ≡ none
      → 600 ≤ res.status_code
      → find (owns d.id d.attempt db_now) o.rows ≡ some r
      → settle F jitter d res app_now db_now o ≡ (some constraint_violated, o)
  settle-constraint_violated jitter res app_now db_now o r n answered high owned =
      let c = outcome F jitter d res app_now db_now o n in
      c.settles
      ∙ settle_where-invalid _ c.rewrite c.last o r owned (
          bad_row (c.rewrite r) res.status_code (c.status r ∙ ap (recorded_status res) answered)
            high)
