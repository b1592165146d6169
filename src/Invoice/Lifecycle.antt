-- ===== src/Invoice/Lifecycle.antt =====
-- internal/invoice/invoice.go: statuses, transitions and the events that announce them.
--
-- `Status` and `Transition` are Go strings: a constructor for each constant, and one for any other
-- string, the empty one included.
pub mod Laws
use native.Mathlib.Decide.{ℕ_discrete}
use tenant_api_platform.Prelude.{
  ℕ, Bool, true, false, ◌||◌, Result, ok, err, invalid, List, [], ◌∷◌, eqb, if◌then◌else◌,
}
use tenant_api_platform.Prelude.Int64.{ℤ, pos, ltb_ℤ, leb_ℤ}
use tenant_api_platform.Prelude.Runes.{Runes, runes}
use tenant_api_platform.Webhook.Events.{
  EventName, invoice_issued, invoice_paid, invoice_voided, other_event,
}

pub data Status : Type 0 where
  status_draft status_open status_paid status_void : Status
  other_status : Runes → Status

unfoldable pub Status-discrete : Discrete Status
unfolding ℕ_discrete
Status-discrete = hlevel ℕ_discrete

abbrev pub status_eq : Status → Status → Bool
unfolding Status-discrete
status_eq a b = eqb Status-discrete a b

unfoldable pub terminal : Status → Bool
terminal status_paid = true
terminal status_void = true
terminal _ = false

pub data Transition : Type 0 where
  transition_issue transition_pay transition_void : Transition
  other_transition : Runes → Transition

unfoldable pub can_transition : Status → Status → Bool
unfolding status_eq
can_transition status_draft to = status_eq to status_open || status_eq to status_void
can_transition status_open to = status_eq to status_paid || status_eq to status_void
can_transition _ to = false

-- The empty string is the answer for an unknown transition.
unfoldable pub transition_to : Transition → Status
transition_to transition_issue = status_open
transition_to transition_pay = status_paid
transition_to transition_void = status_void
transition_to (other_transition s) = other_status []

unfoldable pub event_for_transition : Transition → EventName
event_for_transition transition_issue = invoice_issued
event_for_transition transition_pay = invoice_paid
event_for_transition transition_void = invoice_voided
event_for_transition (other_transition s) = other_event []

abbrev pub audit_action_for : Transition → Runes
audit_action_for transition_issue = runes "invoice.issued"
audit_action_for transition_pay = runes "invoice.paid"
audit_action_for transition_void = runes "invoice.voided"
audit_action_for (other_transition s) = runes "invoice.unknown"

-- The value of the named transition, which the event log records as its kind.
abbrev pub transition_text : Transition → Runes
transition_text transition_issue = runes "issued"
transition_text transition_pay = runes "paid"
transition_text transition_void = runes "voided"
transition_text (other_transition s) = s

abbrev pub default_page_size : ℕ
default_page_size = 25

abbrev pub max_page_size : ℕ
max_page_size = 100

unfoldable pub normalize_page_size : ℤ → ℤ
normalize_page_size requested =
    if leb_ℤ requested (pos 0)
    then pos default_page_size
    else if ltb_ℤ (pos max_page_size) requested
    then pos max_page_size
    else requested

unfoldable pub normalize_status : Status → Result Status
normalize_status (other_status []) = ok (other_status [])
normalize_status (other_status (r ∷ s)) = err (invalid "status")
normalize_status status = ok status
