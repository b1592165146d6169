-- ===== src/Invoice/Lifecycle/Laws.antt =====
-- The lifecycle of an invoice (internal/invoice/invoice.go, and the trigger of migration 0008).
use tenant_api_platform.Prelude.{
  ℕ, ◌<◌, Bool, true, false, ◌≡◌, refl, ◌⊎◌, ◌&&◌, ◌||◌, inl, inr, arith,
}
use tenant_api_platform.Invoice.Lifecycle.{
  Status, status_draft, status_open, status_paid, status_void, other_status, status_eq, terminal,
  can_transition,
}
use tenant_api_platform.Invoice.Tables.{Invoice, invoice_guard, money_kept, moves}

-- How far along the lifecycle a status is.
abbrev pub stage : Status → ℕ
stage status_draft = 0
stage status_open = 1
stage _ = 2

-- A legal move goes forward: it ends at a later stage than it began, so no invoice moves more than
-- twice; it never leaves a terminal status; and it takes a draft to open or void, or an open invoice
-- to paid or void.
pub can_transition_forward :
    (from to : Status)
    → can_transition from to ≡ true
    → (stage from < stage to)
      × (terminal from ≡ false)
      × (((from ≡ status_draft) × ((to ≡ status_open) ⊎ (to ≡ status_void)))
          ⊎ ((from ≡ status_open) × ((to ≡ status_paid) ⊎ (to ≡ status_void))))
unfolding can_transition terminal
can_transition_forward status_draft status_open h = (omega arith, refl, inl (refl, inl refl))
can_transition_forward status_draft status_void h = (omega arith, refl, inl (refl, inr refl))
can_transition_forward status_open status_paid h = (omega arith, refl, inr (refl, inl refl))
can_transition_forward status_open status_void h = (omega arith, refl, inr (refl, inr refl))
can_transition_forward from to h = absurd (ground arith)

and_or_true : (a b : Bool) → (a && (b || true)) ≡ a
and_or_true a b = ground arith

can_transition-moves : (s t : Status) → can_transition s t ≡ moves s t
unfolding can_transition
can_transition-moves status_draft status_draft = refl
can_transition-moves status_draft status_open = refl
can_transition-moves status_draft status_paid = refl
can_transition-moves status_draft status_void = refl
can_transition-moves status_draft (other_status s) = ground arith
can_transition-moves status_open status_draft = refl
can_transition-moves status_open status_open = refl
can_transition-moves status_open status_paid = refl
can_transition-moves status_open status_void = refl
can_transition-moves status_open (other_status s) = ground arith
can_transition-moves status_paid t = refl
can_transition-moves status_void t = refl
can_transition-moves (other_status s) t = refl

-- The application's check and the database's trigger agree: an update that changes the status of an
-- invoice, and none of the number, the currency, the amounts and the creator, whatever else it
-- changes, passes the trigger exactly when `CanTransition` permits the move.
pub invoice_guard-can_transition :
    (o n : Invoice)
    → money_kept o n ≡ true
    → status_eq o.status n.status ≡ false
    → invoice_guard o n ≡ can_transition o.status n.status
unfolding invoice_guard
invoice_guard-can_transition o n kept h =
    rw (h, kept)
      (rw (← can_transition-moves o.status n.status)
        (and_or_true (can_transition o.status n.status) (status_eq o.status status_draft)))
