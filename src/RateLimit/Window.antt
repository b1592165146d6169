-- ===== src/RateLimit/Window.antt =====
-- What a sliding window promises, said of the whole history: of any set of requests, one is admitted
-- exactly when fewer than the limit were admitted in the window that ends with it. The history is
-- never shortened.
pub mod Bounds
pub mod Refine
pub mod Retry
use tenant_api_platform.Prelude.{
  ℕ, ◌+◌, ◌-◌, ◌==◌, Bool, true, false, not, ◌&&◌, List, [], ◌∷◌, ◌++◌, ltb, leb, if◌then◌else◌,
  length, select,
}
use tenant_api_platform.RateLimit.Script.{
  Bucket, Reply, in_window, redis_now, reset_from, sliding_window,
}

pub record Arrival : Type 0 where
  pub micros : ℕ
  pub member : ℕ

-- The reply to a request at `now`, where `recent` are the times admitted in the window.
abbrev pub reply_for : ℕ → ℕ → ℕ → List ℕ → Reply
reply_for limit window now recent =
    if ltb (length recent) limit
    then record {
      flag = 1;
      remaining = limit - length recent - 1;
      reset = reset_from window now recent;
    }
    else record { flag = 0; remaining = 0; reset = reset_from window now recent }

abbrev pub recent_of : ℕ → ℕ → List ℕ → List ℕ
recent_of window now = select (in_window window now)

abbrev pub remember : ℕ → ℕ → ℕ → List ℕ → List ℕ
remember limit window now history =
    if ltb (length (recent_of window now history)) limit then history ++ now ∷ [] else history

-- The replies to a sequence of requests, by the history of what was admitted.
unfoldable pub ideal : ℕ → ℕ → List Arrival → List ℕ → List Reply
ideal limit window [] history = []
ideal limit window (a ∷ rest) history =
    reply_for limit window (redis_now a.micros) (recent_of window (redis_now a.micros) history)
    ∷ ideal limit window rest (remember limit window (redis_now a.micros) history)

-- The replies of the script to the same sequence.
unfoldable pub replies : ℕ → ℕ → List Arrival → Bucket → List Reply
replies limit window [] b = []
replies limit window (a ∷ rest) b =
    (sliding_window limit window a.micros a.member b).0
    ∷ replies limit window rest (sliding_window limit window a.micros a.member b).1

-- The bucket after them.
unfoldable pub after : ℕ → ℕ → List Arrival → Bucket → Bucket
after limit window [] b = b
after limit window (a ∷ rest) b =
    after limit window rest (sliding_window limit window a.micros a.member b).1

-- The times, in milliseconds, of the requests that were let through.
unfoldable pub admitted_times : List Arrival → List Reply → List ℕ
admitted_times (a ∷ rest) (r ∷ rs) =
    let later = admitted_times rest rs in if r.flag == 1 then redis_now a.micros ∷ later else later
admitted_times _ _ = []

-- Whether a time lies in the window that ends with `t`.
abbrev pub within_window : ℕ → ℕ → ℕ → Bool
within_window window t s = leb s t && ltb t (s + window)
