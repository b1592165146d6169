-- ===== src/Webhook/Backoff.antt =====
-- internal/webhook/webhook.go: the retry schedule. A duration is a number of nanoseconds.
pub mod Laws
use tenant_api_platform.Prelude.{
  ℕ, zero, suc, ◌-◌, ◌*◌, ◌<◌, Bool, true, false, List, [], ◌∷◌, ltb, leb, ◌==◌, if◌then◌else◌,
  length,
}

abbrev pub max_attempts : ℕ
max_attempts = 6

abbrev pub second : ℕ
second = 1_000_000_000

abbrev pub backoff_schedule : List ℕ
backoff_schedule =
    (1 * second) ∷ (5 * second) ∷ (30 * second) ∷ (300 * second) ∷ (3600 * second) ∷ []

-- An index into the schedule; the code's index is in range.
abbrev pub schedule_at : List ℕ → ℕ → ℕ
schedule_at [] i = 0
schedule_at (d ∷ ds) zero = d
schedule_at (d ∷ ds) (suc i) = schedule_at ds i

-- The attempt number is not negative here: it counts attempts.
unfoldable pub nominal_backoff : ℕ → ℕ
nominal_backoff failed_attempt =
    if failed_attempt == 0
    then 0
    else (let i = failed_attempt - 1 in
        if leb (length backoff_schedule) i
        then schedule_at backoff_schedule (length backoff_schedule - 1)
        else schedule_at backoff_schedule i)

-- The float64 operations that the jitter is computed with. There are no floats in the model: the
-- type and its operations are a parameter.
pub record Floats : Type 1 where
  pub Float : Type 0
  pub fzero : Float
  pub fone : Float
  pub half : Float
  pub flt : Float → Float → Bool
  pub fadd : Float → Float → Float
  pub fmul : Float → Float → Float
  pub of_int : ℕ → Float
  -- time.Duration(math.Round(x)).
  pub round : Float → ℕ

module _ (F : Floats) where
  open F use {Float, fzero, fone, half, flt, fadd, fmul, of_int, round}

  abbrev pub clamp_fraction : Float → Float
  clamp_fraction f = let f' = if flt f fzero then fzero else f in if flt fone f' then fone else f'

  -- The delay, and whether attempts remain.
  unfoldable pub next_delay : ℕ → Float → ℕ × Bool
  unfolding nominal_backoff
  next_delay failed_attempt jitter =
      if leb max_attempts failed_attempt
      then (0, false)
      else if nominal_backoff failed_attempt == 0
      then (0, true)
      else (
        round (
            fmul (of_int (nominal_backoff failed_attempt))
              (fadd half (fmul half (clamp_fraction jitter)))),
        true,
      )
