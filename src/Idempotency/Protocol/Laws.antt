-- ===== src/Idempotency/Protocol/Laws.antt =====
-- A response is captured whole or not at all (Capture of internal/idempotency/capture.go).
use mathlib.Core.List.{append_assoc, append-nil}
use mathlib.Core.Path.{subst}
use tenant_api_platform.Prelude.{
  ℕ, ◌+◌, ◌≤◌, true, false, List, [], ◌∷◌, ◌++◌, ◌≡◌, refl, sym, ◌∙◌, ap, arith, inl, inr, ◌⊎◌,
  Bool-cases, ltb, length, length-append,
}
use tenant_api_platform.Idempotency.Protocol.{
  Capture, Written, header, bytes, capture_one, capture_from, new_capture, max_stored_body,
}

-- The whole body that a handler writes.
abbrev pub all_bytes : List Written → List ℕ
all_bytes [] = []
all_bytes (header status ∷ ws) = all_bytes ws
all_bytes (bytes b ∷ ws) = b ++ all_bytes ws

overflowed :
    (ws : List Written) (c : Capture) → c.overflow ≡ true → (capture_from c ws).overflow ≡ true
unfolding capture_from
overflowed [] c h = h
overflowed (header status ∷ ws) c h =
    overflowed ws (capture_one (header status) c) (ground (arith, h))
overflowed (bytes b ∷ ws) c h = overflowed ws (capture_one (bytes b) c) (ground (arith, h))

-- What the capture holds, for any start that has not overflowed.
abbrev Exact : List ℕ → Capture → List ℕ → Type 0
Exact body c rest =
    (c.overflow ≡ ltb max_stored_body (length body + length rest))
    × ((c.overflow ≡ true) ⊎ (c.body ≡ body ++ rest))

Exact-append :
    (body b rest : List ℕ) (c : Capture) → Exact (body ++ b) c rest → Exact body c (b ++ rest)
Exact-append body b rest c (size, held) = (
  size ∙ ap (ltb max_stored_body) (omega (arith, length-append body b, length-append b rest)),
  elim held [ inl e ↦ inl e | inr e ↦ inr (e ∙ append_assoc body b rest) ],
)

capture_from-Exact :
    (ws : List Written) (c : Capture)
    → c.overflow ≡ false
    → length c.body ≤ max_stored_body
    → Exact c.body (capture_from c ws) (all_bytes ws)
unfolding capture_from
capture_from-Exact [] c fits small = (ground (arith, fits, small), inr (sym (append-nil c.body)))
capture_from-Exact (header status ∷ ws) c fits small =
    let same : (capture_one (header status) c).body ≡ c.body = ground arith in
    subst (λ d. Exact d (capture_from (capture_one (header status) c) ws) (all_bytes ws)) same
      (capture_from-Exact ws (capture_one (header status) c) (ground (arith, fits))
        (ground (arith, small, same)))
capture_from-Exact (bytes b ∷ ws) c fits small =
    elim (Bool-cases (ltb max_stored_body (length c.body + length b))) [
      | inl e ↦
          let lost = overflowed ws (capture_one (bytes b) c) (ground (arith, fits, e)) in
          let size = length-append b (all_bytes ws) in (ground (arith, lost, size, e), inl lost)
      | inr e ↦
          let same : (capture_one (bytes b) c).body ≡ c.body ++ b = ground (arith, fits, e) in
          let short : length (capture_one (bytes b) c).body ≤ max_stored_body =
            ground (arith, ap length same, length-append c.body b, e) in
          Exact-append c.body b (all_bytes ws) (capture_from (capture_one (bytes b) c) ws) (
            subst (λ d. Exact d (capture_from (capture_one (bytes b) c) ws) (all_bytes ws)) same
              (capture_from-Exact ws (capture_one (bytes b) c) (ground (arith, fits, e)) short))
    ]

-- A response is captured whole or marked as too large: whatever a handler writes, and in however
-- many pieces, the capture overflows exactly when the whole body is longer than 64 KiB, and where it
-- does not, it holds the whole body.
pub capture_from-all_bytes :
    (ws : List Written)
    → ((capture_from new_capture ws).overflow ≡ ltb max_stored_body (length (all_bytes ws)))
      × (((capture_from new_capture ws).overflow ≡ true)
          ⊎ ((capture_from new_capture ws).body ≡ all_bytes ws))
capture_from-all_bytes ws =
    let (size, held) = capture_from-Exact ws new_capture refl (omega arith) in
    (size ∙ ap (ltb max_stored_body) (omega arith), held)
