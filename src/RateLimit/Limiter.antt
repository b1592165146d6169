-- ===== src/RateLimit/Limiter.antt =====
-- internal/ratelimit/ratelimit.go: Allow, keyFor, degrade and parseDecision.
--
-- The script answers, or Redis cannot be reached before it ran, or answers with an error in its place,
-- or the answer is lost afterwards, or a reply is read that is not the script's. A Duration is a number of nanoseconds. Metrics and the log are left out.
pub mod Laws
use tenant_api_platform.Prelude.{
  ℕ, ◌+◌, ◌*◌, ◌/◌, Bool, true, false, List, [], ◌∷◌, ◌++◌, Option, none, some, ◌==◌,
}
use tenant_api_platform.Prelude.Runes.{Runes, runes}
use tenant_api_platform.RateLimit.Script.{Reply, Bucket, sliding_window}

pub record Policy : Type 0 where
  pub name : Runes
  pub limit : ℕ
  pub window : ℕ

pub record Decision : Type 0 where
  pub allowed : Bool
  pub limit : ℕ
  pub remaining : ℕ
  pub reset_after : ℕ
  pub degraded : Bool

abbrev pub millisecond : ℕ
millisecond = 1000000

-- What the client library makes of a reply: integers, or something else.
pub data Value : Type 0 where
  int : ℕ → Value
  other : Value

-- parseDecision.
unfoldable pub parse_decision : List Value → Option Reply
parse_decision (int flag ∷ int remaining ∷ int reset ∷ []) =
    some (record { flag = flag; remaining = remaining; reset = reset })
parse_decision _ = none

-- degrade.
unfoldable pub degrade : Policy → Decision
degrade p = record {
  allowed = true;
  limit = p.limit;
  remaining = 0;
  reset_after = p.window;
  degraded = true;
}

abbrev pub decide : Policy → Option Reply → Decision
decide p none = degrade p
decide p (some r) = record {
  allowed = r.flag == 1;
  limit = p.limit;
  remaining = r.remaining;
  reset_after = r.reset * millisecond;
  degraded = false;
}

pub data Contact : Type 0 where
  unreachable error_reply answer_lost answered : Contact
  answered_with : List Value → Contact

abbrev pub encoded_reply : Reply → List Value
encoded_reply r = int r.flag ∷ int r.remaining ∷ int r.reset ∷ []

abbrev pub outcome : Policy → Contact → Bucket → Reply × Bucket → Decision × Bucket
outcome p unreachable b ran = (degrade p, b)
outcome p error_reply b ran = (degrade p, b)
outcome p (answered_with values) b ran = (decide p (parse_decision values), ran.1)
outcome p answer_lost b ran = (degrade p, ran.1)
outcome p answered b ran = (decide p (parse_decision (encoded_reply ran.0)), ran.1)

-- Allow, on the set of the caller's key, at Redis's time and with the fresh member.
unfoldable pub allow : Policy → Contact → ℕ → ℕ → Bucket → Decision × Bucket
allow p contact micros member b =
    outcome p contact b (sliding_window p.limit (p.window / millisecond) micros member b)

-- keyFor.
unfoldable pub key_for : Policy → Runes → Runes
key_for p bucket = runes "rl:{" ++ (p.name ++ (runes "}:" ++ bucket))
