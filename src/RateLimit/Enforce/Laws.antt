-- ===== src/RateLimit/Enforce/Laws.antt =====
-- What a caller sees of the limit (internal/httpx/ratelimit.go).
use tenant_api_platform.Prelude.{
  ap, ◌∙◌, ℕ, ◌+◌, ◌*◌, ◌/◌, ◌≤◌, ◌<◌, true, false, none, some, List, [], ◌∷◌, ◌++◌, ◌≡◌, ◌≢◌, ◌↔◌,
  refl, arith, ltb, length, Bool-cases, inl, inr, ◌⊎◌,
}
use tenant_api_platform.RateLimit.Script.{
  Bucket, Reply, empty_bucket, redis_now, evict, visible, slide, sliding_window,
}
use tenant_api_platform.RateLimit.Script.Order.{redis_now_mono}
use tenant_api_platform.RateLimit.Limiter.{
  Decision, Policy, millisecond, Contact, unreachable, error_reply, answer_lost, answered,
  answered_with, Value, int, encoded_reply, decide, degrade, parse_decision, allow,
}
use tenant_api_platform.RateLimit.Enforce.{retry_after, x_remaining, enforce, value_of}
use tenant_api_platform.RateLimit.Window.{Arrival, after}
use tenant_api_platform.RateLimit.Window.Refine.{InOrder, Distinct}
use tenant_api_platform.RateLimit.Window.Retry.{sliding_window-retry}

reply_flag :
    (limit window micros member : ℕ) (b : Bucket)
    → ((sliding_window limit window micros member b).0.flag ≡ 0)
      ⊎ ((sliding_window limit window micros member b).0.flag ≡ 1)
unfolding sliding_window slide
reply_flag limit window micros member b =
    elim (Bool-cases
      (ltb (length (evict window (redis_now micros) (visible (redis_now micros) b))) limit)) [
        | inl e ↦ inr (rw e refl)
        | inr e ↦ inl (rw e refl)
      ]

-- What a refusal of a decided request says.
refusal :
    (p : Policy) (r : Reply) (n : ℕ)
    → (enforce (decide p (some r))).passed ≡ false
    → value_of retry_after (enforce (decide p (some r))).headers ≡ some n
    → (r.flag ≢ 1) × (r.reset ≤ n * 1000)
unfolding enforce
refusal p r n h k = ground arith

redis_now-seconds : (micros n : ℕ) → redis_now (micros + n * 1000000) ≡ redis_now micros + n * 1000
unfolding redis_now
redis_now-seconds micros n = omega arith

waited :
    (reset n start later : ℕ)
    → reset ≤ n * 1000
    → redis_now (start + n * 1000000) ≤ redis_now later
    → redis_now start + reset ≤ redis_now later
waited reset n start later h k = omega (arith, redis_now-seconds start n)

passed_flag : (p : Policy) (r : Reply) → r.flag ≡ 1 → (enforce (decide p (some r))).passed ≡ true
unfolding enforce
passed_flag p r h = ground arith

-- A caller who was refused, whatever came before, and comes back after as many seconds as its
-- Retry-After header says is let through, where no other request of the same bucket comes in
-- between, the script answers both times, the limit is not 0, the
-- requests come in the order of their times, and each has a member of its own.
pub enforce-retry_after :
    (p : Policy) (arrivals : List Arrival) (refused retry : Arrival) (n : ℕ)
    → 0 < p.limit
    → InOrder 0 (arrivals ++ refused ∷ [])
    → Distinct (arrivals ++ refused ∷ [])
    → (enforce
        (allow p answered refused.micros refused.member
          (after p.limit (p.window / millisecond) arrivals empty_bucket)).0).passed
      ≡ false
    → value_of retry_after
        (enforce
          (allow p answered refused.micros refused.member
            (after p.limit (p.window / millisecond) arrivals empty_bucket)).0).headers
      ≡ some n
    → refused.micros + n * 1000000 ≤ retry.micros
    → (enforce
        (allow p answered retry.micros retry.member
          (allow p answered refused.micros refused.member
            (after p.limit (p.window / millisecond) arrivals empty_bucket)).1).0).passed
      ≡ true
unfolding allow parse_decision
enforce-retry_after p arrivals refused retry n positive order distinct h k wait =
    let b = after p.limit (p.window / millisecond) arrivals empty_bucket in
    let first =
      (sliding_window p.limit (p.window / millisecond) refused.micros refused.member b).0 in
    let (down, short) = refusal p first n h k in
    let zero_flag : first.flag ≡ 0 =
      elim (reply_flag p.limit (p.window / millisecond) refused.micros refused.member b) [
        | inl e ↦ e
        | inr e ↦ absurd (down e)
      ] in
    let up =
      sliding_window-retry p.limit (p.window / millisecond) arrivals refused retry positive order
        distinct zero_flag
        (waited first.reset n refused.micros retry.micros short (redis_now_mono _ _ wait)) in
    passed_flag p _ up

-- The reply that is read off a contact, where `ran` is the script's.
abbrev pub Reads : Contact → Reply → Reply → Type 0
Reads answered ran r = r ≡ ran
Reads (answered_with values) ran r = values ≡ encoded_reply r
Reads _ ran r = ⊥

parse_decision-cases :
    (values : List Value)
    → ((r : Reply) × (values ≡ encoded_reply r) × (parse_decision values ≡ some r))
      ⊎ (((r : Reply) → values ≡ encoded_reply r → ⊥) × (parse_decision values ≡ none))
unfolding parse_decision
parse_decision-cases (int a ∷ int b ∷ int c ∷ []) =
    inl (record { flag = a; remaining = b; reset = c }, refl, refl)
parse_decision-cases values = inr (λ r h. cc, refl)

parsed : (r : Reply) → parse_decision (encoded_reply r) ≡ some r
unfolding parse_decision
parsed r = refl

encoded_once : (r s : Reply) → encoded_reply r ≡ encoded_reply s → r ≡ s
encoded_once r s h = cc

reply_seen :
    (p : Policy) (r : Reply)
    → ((enforce (decide p (some r))).passed ≡ false ↔ r.flag ≢ 1)
      × (value_of x_remaining (enforce (decide p (some r))).headers ≢ none)
unfolding enforce
reply_seen p r = ground arith

nothing_seen :
    (p : Policy)
    → ((enforce (degrade p)).passed ≡ true)
      × (value_of x_remaining (enforce (degrade p)).headers ≡ none)
unfolding enforce degrade
nothing_seen p = (refl, refl)

module _ (p : Policy) (contact : Contact) (ran : Reply) (d : Decision) where
  -- What a caller sees of a decision, by the reply that was read off the contact.
  abbrev Seen : Type 0
  Seen =
      ((enforce d).passed ≡ false ↔ ((r : Reply) × Reads contact ran r × (r.flag ≢ 1)))
      × ((value_of x_remaining (enforce d).headers ≢ none) ↔ ((r : Reply) × Reads contact ran r))

  Seen-some :
      (r : Reply)
      → d ≡ decide p (some r)
      → Reads contact ran r
      → ((r' : Reply) → Reads contact ran r' → r' ≡ r)
      → Seen
  Seen-some r e h sole = rw e (
    (
      λ k. (r, h, (reply_seen p r).0.0 k),
      λ (r', h', k). (reply_seen p r).0.1 (λ f. k (ap (λ x. x.flag) (sole r' h') ∙ f)),
    ),
    (λ _. (r, h), λ _. (reply_seen p r).1),
  )

  Seen-none : d ≡ degrade p → ((r : Reply) → Reads contact ran r → ⊥) → Seen
  Seen-none e unread = rw e (
    (λ k. cc (k, (nothing_seen p).0), λ (r, h, _). absurd (unread r h)),
    (λ k. absurd (k (nothing_seen p).1), λ (r, h). absurd (unread r h)),
  )

abbrev pub script_reply : Policy → ℕ → ℕ → Bucket → Reply
script_reply p micros member b = (sliding_window p.limit (p.window / millisecond) micros member b).0

-- A request is refused exactly when a reply was read, the script's or one of its shape, whose flag is
-- not 1; and what remains is told exactly when such a reply was read. So neither an outage nor an
-- error nor a reply that does not read refuses anybody, and none claims room.
pub enforce_iff :
    (p : Policy) (contact : Contact) (micros member : ℕ) (b : Bucket)
    → ((enforce (allow p contact micros member b).0).passed ≡ false
        ↔ ((r : Reply) × Reads contact (script_reply p micros member b) r × (r.flag ≢ 1)))
      × ((value_of x_remaining (enforce (allow p contact micros member b).0).headers ≢ none)
          ↔ ((r : Reply) × Reads contact (script_reply p micros member b) r))
unfolding allow
enforce_iff p unreachable micros member b =
    Seen-none p unreachable (script_reply p micros member b) _ refl (λ r h. h)
enforce_iff p error_reply micros member b =
    Seen-none p error_reply (script_reply p micros member b) _ refl (λ r h. h)
enforce_iff p answer_lost micros member b =
    Seen-none p answer_lost (script_reply p micros member b) _ refl (λ r h. h)
enforce_iff p answered micros member b =
    Seen-some p answered (script_reply p micros member b) _ (script_reply p micros member b)
      (ap (decide p) (parsed _)) refl (λ r h. h)
enforce_iff p (answered_with values) micros member b = elim (parse_decision-cases values) [
  | inl (r, e, k) ↦
      Seen-some p (answered_with values) (script_reply p micros member b) _ r (ap (decide p) k) e
        (λ r' h. encoded_once r' r (cc (h, e)))
  | inr (unread, k) ↦
      Seen-none p (answered_with values) (script_reply p micros member b) _ (ap (decide p) k) unread
]
