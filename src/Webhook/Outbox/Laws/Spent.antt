-- ===== src/Webhook/Outbox/Laws/Spent.antt =====
-- An attempt that is settled stays settled, whatever is queued, claimed and settled afterwards
-- (internal/webhook/store.go).
use mathlib.Core.Path.{subst}
use tenant_api_platform.Prelude.{
  ℕ, Bool, true, false, not, ◌&&◌, ◌||◌, ok, none, some, List, [], ◌∷◌, ◌++◌, ◌≡◌, refl, ◌∙◌, ap,
  arith, inl, inr, ltb, ◌==◌, ==_iff, Bool-cases, Option-cases, find, find-All-none, update, map,
  select, All, All-imp, All-append, All-update, All-map,
}
use tenant_api_platform.Webhook.Backoff.{Floats}
use tenant_api_platform.Webhook.Outbox.Rows.{Row, Outbox, is_delivering}
use tenant_api_platform.Webhook.Outbox.Queue.{
  Envelope, enqueue, claim, lease_row, queued, in_rows, due_rows, subscribed,
}
use tenant_api_platform.Webhook.Outbox.Settle.{
  SendResult, lease_lost, owns, Due, settle, settle_where,
}
use tenant_api_platform.Webhook.Outbox.Laws.{
  Written, outcome, settle_where-Written, settle_where-All,
}
use tenant_api_platform.Webhook.Outbox.Laws.Fence.{
  attempted, settle-lease_lost, no_attempt-eq, Written-attempt,
}

module _ {P : Type 0} (F : Floats) where
  -- What happens to the table: a claim, a settle by any worker, or an event that is queued under
  -- other identifiers than `id`.
  pub data Step (id : ℕ) : Outbox P → Outbox P → Type 0 where
    claims :
        {o : Outbox P} (locked : ℕ → Bool) (now batch : ℕ) → Step id o (claim locked now batch o).1
    settles :
        {o : Outbox P} (jitter : F.Float) (d : Due) (res : SendResult) (app_now db_now : ℕ)
        → Step id o (settle F jitter d res app_now db_now o).1
    enqueues :
        {o o' : Outbox P} (env : Envelope P) (new_id : ℕ → ℕ) (now n : ℕ)
        → ((e : ℕ) → (new_id e == id) ≡ false)
        → enqueue env new_id now o ≡ ok (n, o')
        → Step id o o'

  pub data Steps (id : ℕ) (o : Outbox P) : Outbox P → Type 0 where
    here : Steps id o o
    next : {o' o'' : Outbox P} → Steps id o o' → Step id o' o'' → Steps id o o''

  -- The primary key.
  abbrev pub SoleIds : List (Row P) → Type 0
  SoleIds [] = Unit
  SoleIds (x ∷ xs) = All (λ y. (y.id == x.id) ≡ false) xs × SoleIds xs

  module _ (d : Due) where
    -- The row of the attempt is at rest, or at a later attempt.
    abbrev spent : Row P → Bool
    spent x =
        not (x.id == d.id)
        || (ltb d.attempt x.attempts || x.attempts == d.attempt && not (is_delivering x.state))

    abbrev AllSpent : List (Row P) → Type 0
    AllSpent = All (λ x. spent x ≡ true)

    leased : (now : ℕ) (x : Row P) → spent x ≡ true → spent (lease_row now x) ≡ true
    leased now x h = ground arith

    claim-AllSpent :
        (locked : ℕ → Bool) (now batch : ℕ) (o : Outbox P)
        → AllSpent o.rows
        → AllSpent (claim locked now batch o).1.rows
    unfolding claim
    claim-AllSpent locked now batch o h =
        All-update (λ x. spent x ≡ true) (in_rows (due_rows locked now batch o.rows))
          (lease_row now) (λ x s _. leased now x s) o.rows h

    rested :
        (x y : Row P)
        → (y.id ≡ x.id) × (y.attempts ≡ x.attempts)
        → is_delivering y.state ≡ false
        → spent x ≡ true
        → spent y ≡ true
    rested x y (a, b) c h = rw (a, b, c) (ground (arith, h))

    settle-AllSpent :
        (jitter : F.Float) (d' : Due) (res : SendResult) (app_now db_now : ℕ) (o : Outbox P)
        → AllSpent o.rows
        → AllSpent (settle F jitter d' res app_now db_now o).1.rows
    settle-AllSpent jitter d' res app_now db_now o h = elim (Bool-cases (d'.attempt == 0)) [
      | inl e ↦ rw (no_attempt-eq F d' jitter res app_now db_now o ((==_iff _ _).0 e)) h
      | inr e ↦
          let c =
            outcome F jitter d' res app_now db_now o (λ z. cc (e, (==_iff d'.attempt 0).1 z)) in
          rw c.settles (
            settle_where-All _ c.rewrite c.last o (λ x. spent x ≡ true)
              (λ r s. rested r (c.rewrite r) (c.keeps r) (c.rests r) s) h)
    ]

    enqueue-AllSpent :
        (env : Envelope P) (new_id : ℕ → ℕ) (now n : ℕ) (o o' : Outbox P)
        → ((e : ℕ) → (new_id e == d.id) ≡ false)
        → enqueue env new_id now o ≡ ok (n, o')
        → AllSpent o.rows
        → AllSpent o'.rows
    unfolding enqueue
    enqueue-AllSpent env new_id now n o o' other e h =
        let rows : o'.rows
            ≡ o.rows
              ++ map (queued env new_id now)
                  (select (subscribed env.tenant_id env.event) o.endpoints) =
          ground (arith, e) in
        rw rows (
          All-append (λ x. spent x ≡ true) o.rows _ h
            (All-map (λ x. spent x ≡ true) (queued env new_id now) (λ c. rw (other c.id) refl) _))

    Steps-AllSpent : {o o' : Outbox P} → Steps d.id o o' → AllSpent o.rows → AllSpent o'.rows
    Steps-AllSpent here h = h
    Steps-AllSpent (next s (claims locked now batch)) h =
        claim-AllSpent locked now batch _ (Steps-AllSpent s h)
    Steps-AllSpent (next s (settles jitter d' res app_now db_now)) h =
        settle-AllSpent jitter d' res app_now db_now _ (Steps-AllSpent s h)
    Steps-AllSpent (next s (enqueues env new_id now n other e)) h =
        enqueue-AllSpent env new_id now n _ _ other e (Steps-AllSpent s h)

    disowned : (now : ℕ) (x : Row P) → spent x ≡ true → owns d.id d.attempt now x ≡ false
    unfolding owns
    disowned now x h = ground arith

    owned :
        (now : ℕ) (x : Row P)
        → owns d.id d.attempt now x ≡ true
        → ((x.id == d.id) ≡ true) × (x.attempts ≡ d.attempt)
    unfolding owns
    owned now x h = ground arith

    owned_id : (now : ℕ) (x : Row P) → owns d.id d.attempt now x ≡ true → (x.id == d.id) ≡ true
    owned_id now x h = (owned now x h).0

    elsewhere :
        (own : Row P → Bool) (f : Row P → Row P)
        → ((x : Row P) → own x ≡ true → (x.id == d.id) ≡ true)
        → (xs : List (Row P)) → All (λ y. (y.id == d.id) ≡ false) xs
        → AllSpent (update own f xs) × (find own xs ≡ none)
    elsewhere own f sub [] h = (tt, refl)
    elsewhere own f sub (x ∷ xs) (h, hs) =
        let (rest, missing) = elsewhere own f sub xs hs in
        let not_own : own x ≡ false = ground (arith, sub x, h) in
        rw (not_own, h) ((refl, rest), missing)

    just_settled :
        (y : Row P) → y.attempts ≡ d.attempt → is_delivering y.state ≡ false → spent y ≡ true
    just_settled y at rest = ground (arith, at, rest)

    first_spent :
        (now : ℕ) (f : Row P → Row P)
        → ((r : Row P) → ((f r).id ≡ r.id) × ((f r).attempts ≡ r.attempts))
        → ((r : Row P) → is_delivering (f r).state ≡ false)
        → (xs : List (Row P)) → SoleIds xs
        → (r : Row P) → find (owns d.id d.attempt now) xs ≡ some r
        → AllSpent (update (owns d.id d.attempt now) f xs)
    first_spent now f keeps rests [] sole r e = tt
    first_spent now f keeps rests (x ∷ xs) (apart, sole) r e =
        elim (Bool-cases (owns d.id d.attempt now x)) [
          | inl k ↦
              let (named, at) = owned now x k in
              let others : All (λ y. (y.id == d.id) ≡ false) xs =
                All-imp (λ y. (y.id == x.id) ≡ false) (λ y h. ground (arith, h, named)) xs apart in
              rw k (
                just_settled (f x) ((keeps x).1 ∙ at) (rests x),
                (elsewhere (owns d.id d.attempt now) f (λ y h. (owned_id now y h)) xs others).0,
              )
          | inr k ↦ elim (Bool-cases (x.id == d.id)) [
            | inl named ↦
                let others : All (λ y. (y.id == d.id) ≡ false) xs =
                  All-imp (λ y. (y.id == x.id) ≡ false) (λ y h. ground (arith, h, named)) xs
                    apart in
                cc (
                  rw k at e,
                  (elsewhere (owns d.id d.attempt now) f (λ y h. (owned_id now y h)) xs others).1,
                )
            | inr far ↦ rw (k, far) (refl, first_spent now f keeps rests xs sole r (rw k at e))
          ]
        ]

    written_row :
        (own : Row P → Bool) (f : Row P → Row P) (last : Bool) (o : Outbox P)
        → Written (settle_where own f last o).0
        → (r : Row P) × (find own o.rows ≡ some r)
    unfolding settle_where
    written_row own f last o w = elim (Option-cases (find own o.rows)) [
      | inl missing ↦ absurd (ground arith)
      | inr found ↦ found
    ]

    -- An attempt is settled at most once: in a table with one row to an id, after its outcome was
    -- written, and whatever is queued under other ids, claimed and settled by then, but not replayed,
    -- settling it again, with whatever outcome, changes nothing and says that the lease was lost.
    pub settle-once :
        (jitter jitter' : F.Float) (res res' : SendResult) (app_now app_now' db_now db_now' : ℕ)
        (o o' : Outbox P)
        → SoleIds o.rows
        → Written (settle F jitter d res app_now db_now o).0
        → Steps d.id (settle F jitter d res app_now db_now o).1 o'
        → settle F jitter' d res' app_now' db_now' o' ≡ (some lease_lost, o')
    settle-once jitter jitter' res res' app_now app_now' db_now db_now' o o' sole w steps =
        let n = attempted F d jitter res app_now db_now o (λ e. Written-attempt e w) in
        let c = outcome F jitter d res app_now db_now o n in
        let w' = subst (λ x. Written x.0) c.settles w in
        let after = ap (λ x. x.1) c.settles ∙ settle_where-Written _ c.rewrite c.last o w' in
        let (r, e) = written_row (owns d.id d.attempt db_now) c.rewrite c.last o w' in
        let start : AllSpent (settle F jitter d res app_now db_now o).1.rows =
          rw after (first_spent db_now c.rewrite c.keeps c.rests o.rows sole r e) in
        settle-lease_lost F d jitter' res' app_now' db_now' o' n (
          find-All-none _ o'.rows (
            All-imp (λ x. spent x ≡ true) (λ x h. disowned db_now' x h) o'.rows
              (Steps-AllSpent steps start)))
