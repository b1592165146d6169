-- ===== src/Webhook/Events.antt =====
-- internal/webhook/webhook.go: the catalogue of events, and event subscriptions.
use native.Mathlib.Decide.{ℕ_discrete}
use tenant_api_platform.Prelude.{
  Bool, true, false, not, ◌||◌, Result, ok, err, invalid, ◌>>=◌, List, [], ◌∷◌, ◌++◌, ltb,
  if◌then◌else◌, length,
}
use tenant_api_platform.Prelude.Runes.{Runes, runes, runes_eq, trim_space}

-- Any other string is `other_event`.
pub data EventName : Type 0 where
  invoice_created invoice_issued invoice_paid invoice_voided : EventName
  other_event : Runes → EventName

unfoldable pub EventName-discrete : Discrete EventName
unfolding ℕ_discrete
EventName-discrete = hlevel ℕ_discrete

abbrev pub event_text : EventName → Runes
event_text invoice_created = runes "invoice.created"
event_text invoice_issued = runes "invoice.issued"
event_text invoice_paid = runes "invoice.paid"
event_text invoice_voided = runes "invoice.voided"
event_text (other_event s) = s

-- Whether the map `Events` has the name as a key.
abbrev pub known_event : EventName → Bool
known_event (other_event s) = false
known_event _ = true

-- The keys of the map `Events`, as text.
abbrev pub event_names : List Runes
event_names =
    event_text invoice_created
    ∷ event_text invoice_issued
    ∷ event_text invoice_paid
    ∷ event_text invoice_voided
    ∷ []

unfoldable pub text_in : Runes → List Runes → Bool
unfolding runes_eq
text_in e [] = false
text_in e (x ∷ xs) = runes_eq e x || text_in e xs

-- One turn of the loop: the trimmed name is refused, skipped, or appended.
unfoldable pub step_event : Runes → List Runes → Result (List Runes)
unfolding text_in
step_event e out =
    if text_in e ([] ∷ [])
    then err (invalid "events")
    else if not (text_in e event_names)
    then err (invalid "events")
    else if text_in e out
    then ok out
    else ok (out ++ e ∷ [])

-- The loop over the names, with the names kept so far (which are those seen so far).
unfoldable pub collect_events : List Runes → List Runes → Result (List Runes)
unfolding step_event trim_space
collect_events out [] = ok out
collect_events out (e ∷ events) = do
  next ← step_event (trim_space e) out
  collect_events next events

unfoldable pub validate_events : List Runes → Result (List Runes)
unfolding collect_events
validate_events [] = err (invalid "events")
validate_events (e ∷ events) =
    if ltb 32 (length (e ∷ events)) then err (invalid "events") else collect_events [] (e ∷ events)
