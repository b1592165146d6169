-- ===== src/RateLimit/Window/Retry.antt =====
-- A refused caller who waits as told is let in (internal/ratelimit/ratelimit.go).
use tenant_api_platform.Prelude.{
  ℕ, ◌+◌, ◌≤◌, ◌<◌, true, false, List, [], ◌∷◌, ◌++◌, ◌≡◌, refl, sym, ap, ◌∙◌, arith, ltb, leb,
  length, All, All-imp, Bool-cases, inl, inr,
}
use tenant_api_platform.RateLimit.Script.{
  Bucket, Reply, empty_bucket, redis_now, reset_from, slide, sliding_window, has_member, evict,
}
use tenant_api_platform.RateLimit.Script.Order.{redis_now_mono}
use tenant_api_platform.RateLimit.Window.{Arrival, reply_for, recent_of, remember, after}
use tenant_api_platform.RateLimit.Window.Refine.{
  Stands, Apart, InOrder, Distinct, Apart-first, slide-reply, slide-Stands, slide-All,
  recent_of-recent_of,
}
use tenant_api_platform.RateLimit.Window.Bounds.{
  Bounded, recent-le-count, recent_of-fewer, remember-Bounded,
}

-- Once the oldest of a full window has left it, there is room.
room_later :
    (limit window t : ℕ) (recent : List ℕ)
    → length recent ≤ limit
    → 0 < limit
    → (now : ℕ) → now + reset_from window now recent ≤ t
    → length (recent_of window t recent) < limit
room_later limit window t [] full positive now h = positive
room_later limit window t (oldest ∷ recent) full positive now h =
    let left : leb (oldest + window) t ≡ true = ground arith in
    rw left (omega (arith, recent_of-fewer window t recent))

module _ (limit window : ℕ) (last now t member : ℕ) (history : List ℕ) (b : Bucket)
    (st : Stands window last history b) (bounded : Bounded limit window history)
    (later : last ≤ now) (positive : 0 < limit) where
  full : length (recent_of window now history) ≤ limit
  full = omega (
    arith,
    bounded now,
    recent-le-count window now history (All-imp _ (λ s h. omega arith) history st.heard),
  )

  abbrev recent : List ℕ
  recent = recent_of window now history

  refused-full : (reply_for limit window now recent).flag ≡ 0 → ltb (length recent) limit ≡ false
  refused-full h = elim (Bool-cases (ltb (length recent) limit)) [
    | inl e ↦ absurd (ground (arith, e))
    | inr e ↦ e
  ]

  refused-reset :
      ltb (length recent) limit ≡ false
      → (reply_for limit window now recent).reset ≡ reset_from window now recent
  refused-reset e = rw e refl

  flag-room : (n : List ℕ) → length n < limit → (reply_for limit window t n).flag ≡ 1
  flag-room n h = ground arith

  -- One refusal, and the request that comes back.
  pub slide-retry :
      (member' : ℕ)
      → All (λ e. has_member member e ≡ false) b.entries
      → (slide limit window now member b).0.flag ≡ 0
      → now + (slide limit window now member b).0.reset ≤ t
      → (slide limit window t member' (slide limit window now member b).1).0.flag ≡ 1
  slide-retry member' fresh flag wait =
      let answer = slide-reply limit window last now member history b later st in
      let st' = slide-Stands limit window last now member history b later st fresh in
      let late = refused-full (ap (λ (r : Reply). r.flag) (sym answer) ∙ flag) in
      let waited : now + reset_from window now recent ≤ t =
        omega (arith, ap (λ (r : Reply). r.reset) answer, refused-reset late, wait) in
      let same : remember limit window now history ≡ history = rw late refl in
      let room : length (recent_of window t (remember limit window now history)) < limit =
        rw (same, sym (recent_of-recent_of window now t history (omega arith)))
          (room_later limit window t recent full positive now waited) in
      ap (λ (r : Reply). r.flag)
        (slide-reply limit window now t member' (remember limit window now history)
          (slide limit window now member b).1 (omega arith) st')
      ∙ flag-room (recent_of window t (remember limit window now history)) room

retry-from :
    (limit window last : ℕ) (history : List ℕ) (b : Bucket) (arrivals : List Arrival)
    (refused retry : Arrival)
    → Stands window (redis_now last) history b
    → Bounded limit window history
    → 0 < limit
    → InOrder last (arrivals ++ refused ∷ [])
    → Distinct (arrivals ++ refused ∷ [])
    → All (Apart (arrivals ++ refused ∷ [])) b.entries
    → (sliding_window limit window refused.micros refused.member
        (after limit window arrivals b)).0.flag
      ≡ 0
    → redis_now refused.micros
        + (sliding_window limit window refused.micros refused.member
            (after limit window arrivals b)).0.reset
      ≤ redis_now retry.micros
    → (sliding_window limit window retry.micros retry.member
        (sliding_window limit window refused.micros refused.member
          (after limit window arrivals b)).1).0.flag
      ≡ 1
unfolding sliding_window after
retry-from limit window last history b [] refused retry st bounded positive (le, order) distinct
      apart flag wait =
    slide-retry limit window (redis_now last) (redis_now refused.micros) (redis_now retry.micros)
      refused.member history b st bounded (redis_now_mono last refused.micros le) positive
      retry.member (Apart-first refused [] b.entries apart).0 flag wait
retry-from limit window last history b (a ∷ rest) refused retry st bounded positive (le, order)
      (new, distinct) apart flag wait =
    let now = redis_now a.micros in
    let later = redis_now_mono last a.micros le in
    let (fresh, others) = Apart-first a (rest ++ refused ∷ []) b.entries apart in
    let st' = slide-Stands limit window (redis_now last) now a.member history b later st fresh in
    let apart' =
      slide-All limit window (redis_now last) now a.member history b later st
        (Apart (rest ++ refused ∷ [])) others new in
    retry-from limit window a.micros (remember limit window now history)
      (slide limit window now a.member b).1 rest refused retry st'
      (remember-Bounded limit window now history bounded) positive order distinct apart' flag wait

-- A caller who was refused, whatever came before, and asks next when the reset that the refusal told
-- has passed is let through, where the limit is not 0, the requests come in the order of their times
-- and each has a member of its own.
pub sliding_window-retry :
    (limit window : ℕ) (arrivals : List Arrival) (refused retry : Arrival)
    → 0 < limit
    → InOrder 0 (arrivals ++ refused ∷ [])
    → Distinct (arrivals ++ refused ∷ [])
    → (sliding_window limit window refused.micros refused.member
        (after limit window arrivals empty_bucket)).0.flag
      ≡ 0
    → redis_now refused.micros
        + (sliding_window limit window refused.micros refused.member
            (after limit window arrivals empty_bucket)).0.reset
      ≤ redis_now retry.micros
    → (sliding_window limit window retry.micros retry.member
        (sliding_window limit window refused.micros refused.member
          (after limit window arrivals empty_bucket)).1).0.flag
      ≡ 1
unfolding evict
sliding_window-retry limit window arrivals refused retry positive order distinct flag wait =
    retry-from limit window 0 [] empty_bucket arrivals refused retry
      (record { ordered = tt; past = tt; heard = tt; agrees = λ now h. refl }) (λ u. omega arith)
      positive order distinct tt flag wait
