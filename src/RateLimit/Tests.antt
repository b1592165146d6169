-- ===== src/RateLimit/Tests.antt =====
-- Callers who come too often (internal/ratelimit, internal/httpx/ratelimit.go).
use tenant_api_platform.Prelude.{
  ℕ, ◌≤◌, ◌≡◌, ◌≢◌, ◌↔◌, true, false, List, [], ◌∷◌, refl, arith, count, some, none,
}
use tenant_api_platform.Prelude.Runes.{runes}
use tenant_api_platform.RateLimit.Script.{
  Reply, empty_bucket, redis_now, evict, insert_entry, zadd, slide, sliding_window,
}
use tenant_api_platform.RateLimit.Limiter.{Policy, answered, allow, parse_decision}
use tenant_api_platform.RateLimit.Enforce.{enforce, value_of, retry_after, x_remaining}
use tenant_api_platform.RateLimit.Enforce.Laws.{Reads, enforce-retry_after, enforce_iff}
use tenant_api_platform.RateLimit.Window.{
  Arrival, replies, ideal, after, admitted_times, within_window,
}
use tenant_api_platform.RateLimit.Window.Refine.{Distinct, replies-ideal}
use tenant_api_platform.RateLimit.Window.Bounds.{admitted_times-le-limit}

abbrev at : ℕ → ℕ → Arrival
at micros member = record { micros = micros; member = member }

-- Two at once, one too many, and one when the window has passed.
abbrev burst : List Arrival
burst = at 1000000 1 ∷ at 1000000 2 ∷ at 1500000 3 ∷ at 3000000 4 ∷ []

burst-Distinct : Distinct burst
burst-Distinct = ground arith

burst-replies :
    replies 2 2000 burst empty_bucket
    ≡ record { flag = 1; remaining = 1; reset = 2000 }
      ∷ record { flag = 1; remaining = 0; reset = 2000 }
      ∷ record { flag = 0; remaining = 0; reset = 1500 }
      ∷ record { flag = 1; remaining = 1; reset = 2000 }
      ∷ []
unfolding replies sliding_window slide redis_now evict zadd insert_entry
burst-replies = refl

replies-ideal_example : replies 2 2000 burst empty_bucket ≡ ideal 2 2000 burst []
replies-ideal_example = replies-ideal 2 2000 burst (omega arith) burst-Distinct

admitted_times-le-limit_example :
    count (within_window 2000 2500) (admitted_times burst (replies 2 2000 burst empty_bucket)) ≤ 2
admitted_times-le-limit_example =
    admitted_times-le-limit 2 2000 2500 burst (omega arith) burst-Distinct

abbrev two_a_second : Policy
two_a_second = record { name = runes "api"; limit = 2; window = 2000000000 }

turned_away :
    (enforce
      (allow two_a_second answered 1500000 3
        (after 2 2000 (at 1000000 1 ∷ at 1000000 2 ∷ []) empty_bucket)).0).passed
    ≡ false
unfolding enforce allow after sliding_window slide redis_now evict zadd insert_entry parse_decision
turned_away = refl

told_to_wait :
    value_of retry_after
      (enforce
        (allow two_a_second answered 1500000 3
          (after 2 2000 (at 1000000 1 ∷ at 1000000 2 ∷ []) empty_bucket)).0).headers
    ≡ some 2
unfolding enforce allow after sliding_window slide redis_now evict zadd insert_entry parse_decision
told_to_wait = refl

enforce-retry_after_example :
    (enforce
      (allow two_a_second answered 3500000 5
        (allow two_a_second answered 1500000 3
          (after 2 2000 (at 1000000 1 ∷ at 1000000 2 ∷ []) empty_bucket)).1).0).passed
    ≡ true
enforce-retry_after_example =
    enforce-retry_after two_a_second (at 1000000 1 ∷ at 1000000 2 ∷ []) (at 1500000 3)
      (at 3500000 5) 2 (omega arith) (omega arith) (ground arith) turned_away told_to_wait
      (omega arith)

enforce_iff_example :
    ((enforce (allow two_a_second answered 1500000 3 empty_bucket).0).passed ≡ false ↔ (
      (r : Reply) × Reads answered (sliding_window 2 2000 1500000 3 empty_bucket).0 r
      × (r.flag ≢ 1)))
    × ((value_of x_remaining
            (enforce (allow two_a_second answered 1500000 3 empty_bucket).0).headers
          ≢ none)
        ↔ ((r : Reply) × Reads answered (sliding_window 2 2000 1500000 3 empty_bucket).0 r))
enforce_iff_example = enforce_iff two_a_second answered 1500000 3 empty_bucket
