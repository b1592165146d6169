-- ===== src/RateLimit/Window/Refine.antt =====
-- The script answers as the history does, though it keeps only what is in the window and lets the
-- key expire (internal/ratelimit/ratelimit.go).
use tenant_api_platform.Prelude.{
  ℕ, ◌+◌, ◌≤◌, false, not, some, List, [], ◌∷◌, ◌++◌, ◌≡◌, refl, sym, ap, ◌∙◌, arith, ltb, ◌==◌,
  length, All, All-imp, All-append, Bool-cases, inl, inr,
}
use tenant_api_platform.RateLimit.Script.{
  Slot, Bucket, empty_bucket, redis_now, past_expiry, visible, in_window, evict, has_member, zadd,
  scores, admit, or_missing, slide, sliding_window,
}
use tenant_api_platform.RateLimit.Script.Order.{
  redis_now_mono, Sorted, select-All_of, select-Sorted, length-scores, scores-evict,
  scores-insert_entry, insert_entry-All, insert_entry-Sorted, zadd_fresh,
}
use tenant_api_platform.RateLimit.Window.{Arrival, reply_for, recent_of, remember, ideal, replies}

-- What has left the window stays out of it.
pub recent_of-recent_of :
    (window now later : ℕ) (history : List ℕ)
    → now ≤ later
    → recent_of window later (recent_of window now history) ≡ recent_of window later history
recent_of-recent_of window now later [] h = refl
recent_of-recent_of window now later (s ∷ history) h =
    ground (arith, recent_of-recent_of window now later history h)

recent_of-append :
    (window now : ℕ) (xs ys : List ℕ)
    → recent_of window now (xs ++ ys) ≡ recent_of window now xs ++ recent_of window now ys
recent_of-append window now [] ys = refl
recent_of-append window now (x ∷ xs) ys = ground (arith, recent_of-append window now xs ys)

recent_of-none :
    (window now last : ℕ) (history : List ℕ)
    → All (λ s. s ≤ last) history
    → last + window ≤ now
    → recent_of window now history ≡ []
recent_of-none window now last [] h k = refl
recent_of-none window now last (s ∷ history) (h, hs) k =
    ground (arith, recent_of-none window now last history hs k)

-- The bucket stands for the history, as of `last` and whatever the time is then.
pub record Stands (window last : ℕ) (history : List ℕ) (b : Bucket) : Type 0 where
  pub ordered : Sorted b.entries
  pub past : All (λ e. e.score ≤ last) b.entries
  pub heard : All (λ s. s ≤ last) history
  pub agrees :
      (now : ℕ)
      → last ≤ now
      → scores (evict window now (visible now b)) ≡ recent_of window now history

abbrev pub Apart : List Arrival → Slot → Type 0
Apart rest e = All (λ a. has_member a.member e ≡ false) rest

module _ (limit window : ℕ) (last now member : ℕ) (history : List ℕ) (b : Bucket)
    (later : last ≤ now) (st : Stands window last history b) where
  kept : List Slot
  kept = evict window now (visible now b)

  visible-All {κ} : (P : Slot → Type κ) → All P b.entries → All P (visible now b)
  visible-All P h = elim (Bool-cases (past_expiry now b.expires_at)) [
    | inl e ↦ rw e tt
    | inr e ↦ rw e h
  ]

  kept-All {κ} : (P : Slot → Type κ) → All P b.entries → All P kept
  unfolding kept evict
  kept-All P h =
      select-All_of (λ e. in_window window now e.score) P (visible now b) (visible-All P h)

  visible-Sorted : Sorted (visible now b)
  visible-Sorted = elim (Bool-cases (past_expiry now b.expires_at)) [
    | inl e ↦ rw e tt
    | inr e ↦ rw e st.ordered
  ]

  kept-Sorted : Sorted kept
  unfolding kept evict
  kept-Sorted = select-Sorted (λ e. in_window window now e.score) (visible now b) visible-Sorted

  kept-past : All (λ e. e.score ≤ now) kept
  kept-past = kept-All (λ e. e.score ≤ now) (All-imp _ (λ e h. omega arith) b.entries st.past)

  heard_now : All (λ s. s ≤ now) history
  heard_now = All-imp _ (λ s h. omega arith) history st.heard

  scores-kept : scores kept ≡ recent_of window now history
  unfolding kept
  scores-kept = st.agrees now later

  later_on : (t : ℕ) → now ≤ t → recent_of window t (scores kept) ≡ recent_of window t history
  later_on t h = ap (recent_of window t) scores-kept ∙ recent_of-recent_of window now t history h

  newest : Slot
  newest = record { score = now; member = member }

  admitted : Bucket
  unfolding newest
  admitted = record { entries = zadd newest kept; expires_at = some (now + window) }

  refused : Bucket
  refused = record (or_missing now b) { entries = kept }

  scores-zadd :
      All (λ e. has_member member e ≡ false) kept
      → scores (zadd newest kept) ≡ scores kept ++ now ∷ []
  unfolding newest
  scores-zadd fresh =
      ap scores (zadd_fresh newest kept fresh)
      ∙ scores-insert_entry newest kept kept-Sorted kept-past

  admitted-agrees :
      All (λ e. has_member member e ≡ false) kept
      → (t : ℕ) → now ≤ t
      → scores (evict window t (visible t admitted)) ≡ recent_of window t (history ++ now ∷ [])
  unfolding admitted
  admitted-agrees fresh t h = elim (Bool-cases (ltb (now + window) t)) [
    | inl e ↦
        let gone : now + window ≤ t = ground (arith, e) in
        rw e (
          scores-evict window t []
          ∙ sym (
              recent_of-none window t now (history ++ now ∷ [])
                (All-append _ history (now ∷ []) heard_now (omega arith, tt)) gone))
    | inr e ↦ rw e (
        scores-evict window t (zadd newest kept)
        ∙ ap (recent_of window t) (scores-zadd fresh)
        ∙ recent_of-append window t (scores kept) (now ∷ [])
        ∙ ap (λ l. l ++ recent_of window t (now ∷ [])) (later_on t h)
        ∙ sym (recent_of-append window t history (now ∷ [])))
  ]

  admitted-Stands :
      All (λ e. has_member member e ≡ false) kept → Stands window now (history ++ now ∷ []) admitted
  unfolding admitted newest
  admitted-Stands fresh =
      let shape = zadd_fresh newest kept fresh in
      record {
        ordered = rw shape (insert_entry-Sorted newest kept kept-Sorted);
        past = rw shape (insert_entry-All (λ e. e.score ≤ now) newest kept (omega arith) kept-past);
        heard = All-append _ history (now ∷ []) heard_now (omega arith, tt);
        agrees = admitted-agrees fresh;
      }

  refused-agrees :
      (t : ℕ) → now ≤ t → scores (evict window t (visible t refused)) ≡ recent_of window t history
  unfolding refused
  refused-agrees t h = elim (Bool-cases (past_expiry now b.expires_at)) [
    | inl e ↦ rw e (scores-evict window t kept ∙ later_on t h)
    | inr e ↦ elim (Bool-cases (past_expiry t b.expires_at)) [
      | inl g ↦ rw (e, g) (rw g at (st.agrees t (omega arith)))
      | inr g ↦ rw (e, g) (scores-evict window t kept ∙ later_on t h)
    ]
  ]

  refused-Stands : Stands window now history refused
  unfolding refused
  refused-Stands = record {
    ordered = kept-Sorted;
    past = kept-past;
    heard = heard_now;
    agrees = refused-agrees;
  }

  counted : length (recent_of window now history) ≡ length kept
  counted = ap length (sym scores-kept) ∙ length-scores kept

  admit-Stands :
      All (λ e. has_member member e ≡ false) kept
      → Stands window now
          (remember limit window now history)
          (admit limit window now member (or_missing now b) kept).1
  unfolding admitted newest refused
  admit-Stands fresh = elim (Bool-cases (ltb (length kept) limit)) [
    | inl e ↦ rw (counted, e) (admitted-Stands fresh)
    | inr e ↦ rw (counted, e) refused-Stands
  ]

  admit-reply :
      (admit limit window now member (or_missing now b) kept).0
      ≡ reply_for limit window now (recent_of window now history)
  admit-reply = elim (Bool-cases (ltb (length kept) limit)) [
    | inl e ↦ rw (sym scores-kept, length-scores kept, e) refl
    | inr e ↦ rw (sym scores-kept, length-scores kept, e) refl
  ]

  pub slide-reply :
      (slide limit window now member b).0
      ≡ reply_for limit window now (recent_of window now history)
  unfolding slide kept
  slide-reply = admit-reply

  pub slide-Stands :
      All (λ e. has_member member e ≡ false) b.entries
      → Stands window now (remember limit window now history) (slide limit window now member b).1
  unfolding slide kept
  slide-Stands fresh = admit-Stands (kept-All (λ e. has_member member e ≡ false) fresh)

  admit-All :
      (P : Slot → Type 0)
      → All P b.entries
      → P (record { score = now; member = member })
      → All P (admit limit window now member (or_missing now b) kept).1.entries
  unfolding zadd
  admit-All P old new = elim (Bool-cases (ltb (length kept) limit)) [
    | inl e ↦ rw e (
        insert_entry-All P _ _ new
          (select-All_of (λ x. not (has_member member x)) P kept (kept-All P old)))
    | inr e ↦ rw e (kept-All P old)
  ]

  -- What is kept is what was there and what came.
  pub slide-All :
      (P : Slot → Type 0)
      → All P b.entries
      → P (record { score = now; member = member })
      → All P (slide limit window now member b).1.entries
  unfolding slide kept
  slide-All P old new = admit-All P old new

-- The requests come in the order of their times, the first not before `last`.
abbrev pub InOrder : ℕ → List Arrival → Type 0
InOrder last [] = Unit
InOrder last (a ∷ rest) = (last ≤ a.micros) × InOrder a.micros rest

-- No two requests have the same member.
abbrev pub Distinct : List Arrival → Type 0
Distinct [] = Unit
Distinct (a ∷ rest) = All (λ x. (a.member == x.member) ≡ false) rest × Distinct rest

pub Apart-first :
    (a : Arrival) (rest : List Arrival) (es : List Slot)
    → All (Apart (a ∷ rest)) es
    → All (λ e. has_member a.member e ≡ false) es × All (Apart rest) es
Apart-first a rest [] h = (tt, tt)
Apart-first a rest (e ∷ es) ((h, hs), k) =
    let (first, others) = Apart-first a rest es k in ((h, first), (hs, others))

replies-from :
    (limit window last : ℕ) (history : List ℕ) (b : Bucket) (arrivals : List Arrival)
    → Stands window (redis_now last) history b
    → InOrder last arrivals
    → Distinct arrivals
    → All (Apart arrivals) b.entries
    → replies limit window arrivals b ≡ ideal limit window arrivals history
unfolding replies ideal sliding_window
replies-from limit window last history b [] st order distinct apart = refl
replies-from limit window last history b (a ∷ rest) st (le, order) (new, distinct) apart =
    let now = redis_now a.micros in
    let later = redis_now_mono last a.micros le in
    let (fresh, others) = Apart-first a rest b.entries apart in
    let first = slide-reply limit window (redis_now last) now a.member history b later st in
    let st' = slide-Stands limit window (redis_now last) now a.member history b later st fresh in
    let apart' =
      slide-All limit window (redis_now last) now a.member history b later st (Apart rest) others
        new in
    let others' =
      replies-from limit window a.micros (remember limit window now history)
        (slide limit window now a.member b).1 rest st' order distinct apart' in
    ap (λ r. r ∷ replies limit window rest (slide limit window now a.member b).1) first
    ∙ ap (λ rs. reply_for limit window now (recent_of window now history) ∷ rs) others'

-- Whatever requests come, in the order of their times and each with a member of its own, the script
-- gives the replies, flag, remainder and reset, that follow from the history of all that it admitted:
-- neither evicting what has left the window nor letting the key expire forgets anything that counts.
pub replies-ideal :
    (limit window : ℕ) (arrivals : List Arrival)
    → InOrder 0 arrivals
    → Distinct arrivals
    → replies limit window arrivals empty_bucket ≡ ideal limit window arrivals []
unfolding evict
replies-ideal limit window arrivals order distinct =
    replies-from limit window 0 [] empty_bucket arrivals
      (record { ordered = tt; past = tt; heard = tt; agrees = λ now h. refl }) order distinct tt
