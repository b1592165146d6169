-- ===== src/RateLimit/Script.antt =====
-- The Lua script slidingWindow of internal/ratelimit/ratelimit.go on the sorted set of one key.
--
-- Scores and times are milliseconds, members numbers. The set is the list of its entries by score and
-- then by member, as Redis orders them. A key whose expiry has passed is a missing key, which is an
-- empty set. TIME is read in microseconds and is one value throughout a script.
pub mod Order
use tenant_api_platform.Prelude.{
  ℕ, ◌+◌, ◌*◌, ◌-◌, ◌/◌, ◌%◌, Bool, true, false, not, ◌&&◌, ◌||◌, Option, none, some, List, [], ◌∷◌,
  ltb, leb, ◌==◌, if◌then◌else◌, length, select,
}

pub record Slot : Type 0 where
  pub score : ℕ
  pub member : ℕ

pub record Bucket : Type 0 where
  pub entries : List Slot
  pub expires_at : Option ℕ

abbrev pub empty_bucket : Bucket
empty_bucket = record { entries = []; expires_at = none }

-- tonumber(t[1]) * 1000 + math.floor(tonumber(t[2]) / 1000).
unfoldable pub redis_now : ℕ → ℕ
redis_now micros = micros / 1000000 * 1000 + micros % 1000000 / 1000

abbrev pub past_expiry : ℕ → Option ℕ → Bool
past_expiry now none = false
past_expiry now (some at) = ltb at now

-- What a command finds under the key.
abbrev pub visible : ℕ → Bucket → List Slot
visible now b = if past_expiry now b.expires_at then [] else b.entries

-- ZREMRANGEBYSCORE key 0 (now - windowms).
abbrev pub in_window : ℕ → ℕ → ℕ → Bool
in_window window now score = not (leb (score + window) now)

unfoldable pub evict : ℕ → ℕ → List Slot → List Slot
evict window now = select (λ e. in_window window now e.score)

abbrev pub comes_before : Slot → Slot → Bool
comes_before a b = ltb a.score b.score || a.score == b.score && ltb a.member b.member

unfoldable pub insert_entry : Slot → List Slot → List Slot
insert_entry e [] = e ∷ []
insert_entry e (x ∷ xs) =
    let rest = insert_entry e xs in if comes_before e x then e ∷ x ∷ xs else x ∷ rest

abbrev pub has_member : ℕ → Slot → Bool
has_member member e = e.member == member

-- ZADD: a member that is there already gets the new score.
unfoldable pub zadd : Slot → List Slot → List Slot
zadd e xs = insert_entry e (select (λ x. not (has_member e.member x)) xs)

-- The script's reply: the flag, what remains, and the milliseconds until a slot frees.
pub record Reply : Type 0 where
  pub flag : ℕ
  pub remaining : ℕ
  pub reset : ℕ

-- windowms - (now - oldest), and 0 where that is negative.
abbrev pub reset_from : ℕ → ℕ → List ℕ → ℕ
reset_from window now [] = window
reset_from window now (oldest ∷ scores) = window + oldest - now

abbrev pub scores : List Slot → List ℕ
scores [] = []
scores (e ∷ es) = e.score ∷ scores es

-- The script from ZCARD on.
abbrev pub admit : ℕ → ℕ → ℕ → ℕ → Bucket → List Slot → Reply × Bucket
admit limit window now member b kept =
    if ltb (length kept) limit
    then (
      record {
        flag = 1;
        remaining = limit - length kept - 1;
        reset = reset_from window now (scores kept);
      },
      record {
        entries = zadd (record { score = now; member = member }) kept;
        expires_at = some (now + window);
      },
    )
    else (
      record { flag = 0; remaining = 0; reset = reset_from window now (scores kept) },
      record b { entries = kept },
    )

abbrev pub or_missing : ℕ → Bucket → Bucket
or_missing now b = if past_expiry now b.expires_at then empty_bucket else b

-- The script at a time in milliseconds. A missing key has no expiry.
unfoldable pub slide : ℕ → ℕ → ℕ → ℕ → Bucket → Reply × Bucket
slide limit window now member b =
    admit limit window now member (or_missing now b) (evict window now (visible now b))

-- The script.
unfoldable pub sliding_window : ℕ → ℕ → ℕ → ℕ → Bucket → Reply × Bucket
sliding_window limit window micros member b = slide limit window (redis_now micros) member b
