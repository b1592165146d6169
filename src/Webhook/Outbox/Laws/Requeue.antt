-- ===== src/Webhook/Outbox/Laws/Requeue.antt =====
-- What Replay of internal/webhook/store.go may change.
use tenant_api_platform.Prelude.{
  some, ℕ, Bool, true, false, not, ◌&&◌, ◌≡◌, arith, inl, inr, find, select, update, select-update,
  find-eq-some, Option-cases, ◌==◌,
}
use tenant_api_platform.Tenant.{Authorized, auth_valid}
use tenant_api_platform.Webhook.Outbox.Rows.{Row, Outbox, is_dead}
use tenant_api_platform.Webhook.Outbox.Replay.{replayed, of_tenant, requeue, replay}

abbrev pub foreign : {P : Type 0} → Authorized → Row P → Bool
foreign auth x = not (x.tenant_id == auth.scope.id)

abbrev pub dead_own : {P : Type 0} → Authorized → ℕ → Row P → Bool
dead_own auth id x = of_tenant id auth.scope.id x && is_dead x.state

-- A replay that was done.
pub record Replayed {P : Type 0} (auth : Authorized) (id now : ℕ) (r : Row P) (o o' : Outbox P)
    : Type 0 where
  pub caller : auth_valid auth ≡ true
  pub row : Row P
  pub listed : find (dead_own auth id) o.rows ≡ some row
  pub was : of_tenant id auth.scope.id row ≡ true
  pub gone : is_dead row.state ≡ true
  pub becomes : r ≡ requeue now row
  pub rows : o'.rows ≡ update (dead_own auth id) (requeue now) o.rows
  pub others : select (foreign auth) o'.rows ≡ select (foreign auth) o.rows

module _ {P : Type 0} (auth : Authorized) (id now : ℕ) (o : Outbox P) where
  apart :
      (x : Row P)
      → dead_own auth id x ≡ true
      → (foreign auth x ≡ false) × (foreign auth (requeue now x) ≡ false)
  apart x h = ground arith

  dead_own-parts :
      (x : Row P)
      → dead_own auth id x ≡ true
      → (of_tenant id auth.scope.id x ≡ true) × (is_dead x.state ≡ true)
  dead_own-parts x h = ground arith

  -- A replay is done only for a valid caller and a dead delivery in the table of the caller's own
  -- tenant, which goes back to pending with its attempts at none and one replay more; the deliveries of every other
  -- tenant are as they were.
  pub replay-Replayed :
      (r : Row P)
      → (replay auth id now o).0 ≡ replayed r
      → Replayed auth id now r o (replay auth id now o).1
  unfolding replay
  replay-Replayed r h = elim (Option-cases (find (dead_own auth id) o.rows)) [
    | inl missing ↦ absurd (ground arith)
    | inr (x, e) ↦
        let (own, gone) = dead_own-parts x (find-eq-some (dead_own auth id) o.rows x e) in
        record {
          caller = ground arith;
          row = x;
          listed = e;
          was = own;
          gone = gone;
          becomes = ground arith;
          rows = ground arith;
          others =
              ground
                (arith, select-update (foreign auth) (dead_own auth id) (requeue now) apart o.rows);
        }
  ]
