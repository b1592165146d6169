-- ===== src/RateLimit/Window/Bounds.antt =====
-- The limit holds in every window, and a refused caller who waits as told is let in
-- (internal/ratelimit/ratelimit.go).
use mathlib.Core.List.{append_assoc}
use tenant_api_platform.Prelude.{
  ℕ, ◌≤◌, ◌<◌, List, [], ◌∷◌, ◌++◌, sym, arith, ltb, leb, length, count, count-append, All,
  Bool-cases, inl, inr,
}
use tenant_api_platform.RateLimit.Script.{empty_bucket, redis_now}
use tenant_api_platform.RateLimit.Window.{
  Arrival, recent_of, remember, ideal, replies, admitted_times, within_window,
}
use tenant_api_platform.RateLimit.Window.Refine.{InOrder, Distinct, replies-ideal}

abbrev pub Bounded : ℕ → ℕ → List ℕ → Type 0
Bounded limit window history = (t : ℕ) → count (within_window window t) history ≤ limit

-- Of what was admitted up to now, a later window holds no more than the one that ends now.
count-le-recent :
    (window now t : ℕ) (history : List ℕ)
    → now ≤ t
    → count (within_window window t) history ≤ length (recent_of window now history)
count-le-recent window now t [] h = omega arith
count-le-recent window now t (s ∷ history) h =
    ground (arith, count-le-recent window now t history h)

pub recent-le-count :
    (window now : ℕ) (history : List ℕ)
    → All (λ s. s ≤ now) history
    → length (recent_of window now history) ≤ count (within_window window now) history
recent-le-count window now [] h = omega arith
recent-le-count window now (s ∷ history) (h, hs) =
    ground (arith, recent-le-count window now history hs)

pub recent_of-fewer :
    (window t : ℕ) (history : List ℕ) → length (recent_of window t history) ≤ length history
recent_of-fewer window t [] = omega arith
recent_of-fewer window t (s ∷ history) = ground (arith, recent_of-fewer window t history)

admit-Bounded :
    (limit window now : ℕ) (history : List ℕ)
    → Bounded limit window history
    → length (recent_of window now history) < limit
    → Bounded limit window (history ++ now ∷ [])
admit-Bounded limit window now history bounded room t = elim (Bool-cases (leb now t)) [
  | inl e ↦ ground (
    arith,
    e,
    count-append (within_window window t) history (now ∷ []),
    count-le-recent window now t history,
  )
  | inr e ↦ ground (arith, e, count-append (within_window window t) history (now ∷ []), bounded t)
]

pub remember-Bounded :
    (limit window now : ℕ) (history : List ℕ)
    → Bounded limit window history
    → Bounded limit window (remember limit window now history)
remember-Bounded limit window now history bounded =
    elim (Bool-cases (ltb (length (recent_of window now history)) limit)) [
      | inl e ↦ rw e (admit-Bounded limit window now history bounded (ground (arith, e)))
      | inr e ↦ rw e bounded
    ]

ideal-Bounded :
    (limit window : ℕ) (arrivals : List Arrival) (history : List ℕ)
    → Bounded limit window history
    → Bounded limit window
        (history ++ admitted_times arrivals (ideal limit window arrivals history))
unfolding ideal admitted_times
ideal-Bounded limit window [] history bounded =
    λ t. ground (arith, bounded t, count-append (within_window window t) history [])
ideal-Bounded limit window (a ∷ rest) history bounded =
    let now = redis_now a.micros in
    elim (Bool-cases (ltb (length (recent_of window now history)) limit)) [
      | inl e ↦ rw e (
          rw
            (sym (
              append_assoc history (now ∷ [])
                (admitted_times rest (ideal limit window rest (history ++ now ∷ [])))))
            (ideal-Bounded limit window rest (history ++ now ∷ [])
              (admit-Bounded limit window now history bounded (ground (arith, e)))))
      | inr e ↦ rw e (ideal-Bounded limit window rest history bounded)
    ]

-- However many requests come, in the order of their times and each with a member of its own, no window
-- of the policy's length, wherever it ends, holds more than the limit of those that were let through.
pub admitted_times-le-limit :
    (limit window t : ℕ) (arrivals : List Arrival)
    → InOrder 0 arrivals
    → Distinct arrivals
    → count
        (within_window window t)
        (admitted_times arrivals (replies limit window arrivals empty_bucket))
      ≤ limit
admitted_times-le-limit limit window t arrivals order distinct =
    rw (replies-ideal limit window arrivals order distinct)
      (ideal-Bounded limit window arrivals [] (λ u. omega arith) t)
