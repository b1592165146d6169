-- ===== src/Invoice/Store/Statements/Laws.antt =====
-- What the shared statements of internal/invoice/store.go leave of the tables.
use tenant_api_platform.Prelude.Int64.{max_int64}
use tenant_api_platform.Prelude.{
  some, ◌+◌, ◌<◌, suc, refl, find, update, find-append, find-update, find-eq-some, Option-cases, ℕ,
  ok, Result-cases, inl, inr, Option, [], ◌∷◌, ◌++◌, ◌≡◌, arith,
}
use tenant_api_platform.Prelude.Runes.{Runes}
use tenant_api_platform.Tenant.{Authorized}
use tenant_api_platform.Audit.{ActorKind, actor_from_authorized}
use tenant_api_platform.Webhook.Events.{EventName}
use tenant_api_platform.Invoice.Lifecycle.{Status}
use tenant_api_platform.Invoice.Tables.{Invoice, Loaded, Counter, AuditImage, LogEvent, Tables}
use tenant_api_platform.Invoice.Store.Statements.{
  Env, Call, emit, audit_invoice, write_event, allocate_number, counts_for,
}

-- The tables of the invoices themselves are as they were.
pub record Keeps (t t' : Tables) : Type 0 where
  pub counters : t'.counters ≡ t.counters
  pub invoices : t'.invoices ≡ t.invoices
  pub items : t'.items ≡ t.items

pub Keeps-trans : {a b c : Tables} → Keeps a b → Keeps b c → Keeps a c
Keeps-trans h k = record { counters = cc; invoices = cc; items = cc }

pub emit-Keeps :
    (env : Env) (call : Call) (auth : Authorized) (e : EventName) (l : Loaded) (t t' : Tables)
    → emit env call auth e l t ≡ ok (tt, t')
    → Keeps t t' × (t'.events ≡ t.events) × (t'.trail ≡ t.trail)
unfolding emit
emit-Keeps env call auth e l t t' h = ground arith

pub audit_invoice-Keeps :
    (call : Call) (auth : Authorized) (action : Runes) (i : Invoice)
    (before after : Option AuditImage) (t t' : Tables)
    → audit_invoice call auth action i before after t ≡ ok (tt, t')
    → Keeps t t' × (t'.events ≡ t.events) × (t'.outbox ≡ t.outbox)
unfolding audit_invoice
audit_invoice-Keeps call auth action i before after t t' h = ground arith

-- The entry of the log.
abbrev pub logged :
    Invoice → Runes → Option Status → Option Status → Option ℕ × ActorKind → LogEvent
logged i kind from to actor = record {
  invoice_id = i.id;
  tenant_id = i.tenant_id;
  kind = kind;
  from_status = from;
  to_status = to;
  actor_id = actor.0;
  actor_kind = actor.1;
}

pub write_event-Keeps :
    (auth : Authorized) (i : Invoice) (kind : Runes) (from to : Option Status) (t t' : Tables)
    → write_event auth i kind from to t ≡ ok (tt, t')
    → Keeps t t'
      × (t'.trail ≡ t.trail)
      × (t'.outbox ≡ t.outbox)
      × ((actor : Option ℕ × ActorKind) × (actor_from_authorized auth ≡ ok actor)
          × (t'.events ≡ t.events ++ logged i kind from to actor ∷ []))
unfolding write_event
write_event-Keeps auth i kind from to t t' h = elim (Result-cases (actor_from_authorized auth)) [
  | inl (actor, e) ↦ (
    record { counters = ground arith; invoices = ground arith; items = ground arith },
    ground arith,
    ground arith,
    (actor, e, ground arith),
  )
  | inr (e, f) ↦ absurd (ground arith)
]

-- The counter that a tenant's next number is taken from, after a number was taken.
allocate_number-drawn :
    (tenant_id n : ℕ) (t t' : Tables)
    → allocate_number tenant_id t ≡ ok (n, t')
    → (c : Counter) × (find (counts_for tenant_id) t'.counters ≡ some c) × (c.next_number ≡ suc n)
unfolding allocate_number
allocate_number-drawn tenant_id n t t' h =
    elim (Option-cases (find (counts_for tenant_id) t.counters)) [
      | inl missing ↦
          let first : Counter = record { tenant_id = tenant_id; next_number = 2 } in
          let appended = find-append (counts_for tenant_id) t.counters (first ∷ []) missing in
          (first, ground (arith, appended), ground arith)
      | inr (c, e) ↦
          let kept =
            find-update (counts_for tenant_id) (λ x. record x { next_number = x.next_number + 1 })
              (counts_for tenant_id) (λ x. refl) t.counters in
          (
            record c { next_number = c.next_number + 1 },
            ground (arith, kept, find-eq-some (counts_for tenant_id) t.counters c e),
            ground arith,
          )
    ]

allocate_number-found :
    (tenant_id m : ℕ) (t : Tables) (c : Counter)
    → find (counts_for tenant_id) t.counters ≡ some c
    → c.next_number ≡ m
    → m < max_int64
    → (t' : Tables) × (allocate_number tenant_id t ≡ ok (m, t'))
unfolding allocate_number
allocate_number-found tenant_id m t c e f fits = (
  record t {
    counters =
        update (counts_for tenant_id) (λ x. record x { next_number = x.next_number + 1 })
          t.counters;
  },
  ground arith,
)

-- Invoice numbers have no gap: of two numbers that a tenant draws in a row, the second is the first
-- plus one, as long as it fits the counter's column.
pub allocate_number-next :
    (tenant_id n : ℕ) (t t' : Tables)
    → allocate_number tenant_id t ≡ ok (n, t')
    → suc n < max_int64
    → (t'' : Tables) × (allocate_number tenant_id t' ≡ ok (suc n, t''))
allocate_number-next tenant_id n t t' h fits =
    let (c, there, next) = allocate_number-drawn tenant_id n t t' h in
    allocate_number-found tenant_id (suc n) t' c there next fits
