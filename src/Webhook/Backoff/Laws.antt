-- ===== src/Webhook/Backoff/Laws.antt =====
-- The retry schedule of internal/webhook/webhook.go.
use tenant_api_platform.Prelude.{ℕ, suc, ◌*◌, ◌≤◌, ◌<◌, true, ◌≡◌, ◌↔◌, arith}
use tenant_api_platform.Webhook.Backoff.{max_attempts, second, nominal_backoff, Floats, next_delay}

-- The nominal delay never shrinks from one failed attempt to the next, and from the first on it is
-- between a second and an hour.
nominal_backoff_bounds :
    (n : ℕ)
    → (nominal_backoff n ≤ nominal_backoff (suc n))
      × (1 * second ≤ nominal_backoff (suc n))
      × (nominal_backoff (suc n) ≤ 3600 * second)
unfolding nominal_backoff
nominal_backoff_bounds n = ground arith

-- A failed attempt is followed by another exactly while it is not the last of the six.
next_delay_iff :
    (F : Floats) (n : ℕ) (jitter : F.Float)
    → ((next_delay F n jitter).1 ≡ true) ↔ (n < max_attempts)
unfolding next_delay
next_delay_iff F n jitter = ground arith
