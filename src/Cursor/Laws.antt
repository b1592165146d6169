-- ===== src/Cursor/Laws.antt =====
-- What a cursor guarantees (internal/platform/cursor/cursor.go).
use tenant_api_platform.Prelude.{
  ℕ, true, false, not, ◌||◌, some, Option-cases, List, [], ◌∷◌, ◌++◌, ◌≡◌, refl, sym, ◌∙◌, ap,
  arith, inl, inr, Bool-cases, if◌then◌else◌, ◌==◌, every,
}
use tenant_api_platform.Prelude.Runes.{Runes, runes_eq, runes_eq→≡, runes_eq_refl}
use tenant_api_platform.Audit.{is_empty}
use tenant_api_platform.Cursor.{
  Libraries, Binding, Position, binding_fingerprint, dot, signed, sign_body, issued, payload_of,
  encode_cursor, cut_dot, rejected, found, binding_mismatch, at_payload, at_parts, decode_cursor,
}

-- A text without dots in front of a dot is what comes before the first one.
cut_dot-append :
    (s t : Runes) → every (λ r. not (r == dot)) s ≡ true → cut_dot (s ++ dot ∷ t) ≡ some (s, t)
unfolding cut_dot
cut_dot-append [] t h = refl
cut_dot-append (r ∷ s) t h = ground (arith, cut_dot-append s t)

cut_dot-some :
    (token body sig : Runes) → cut_dot token ≡ some (body, sig) → token ≡ body ++ dot ∷ sig
unfolding cut_dot
cut_dot-some [] body sig h = cc
cut_dot-some (r ∷ s) body sig h = elim (Bool-cases (r == dot)) [
  | inl e ↦ ground (arith, e)
  | inr e ↦ elim (Option-cases (cut_dot s)) [
    | inl n ↦ ground (arith, e, n)
    | inr ((before, after), k) ↦
        let rest = cut_dot-some s before after k in ground (arith, e, k, rest)
  ]
]

-- A signature that is accepted is the one that Encode writes.
at_signature-found :
    (lib : Libraries) (key : List ℕ) (b : Binding) (body sig : Runes) (p : Position)
    → at_parts lib key b (some (body, sig)) ≡ found p
    → sig ≡ sign_body lib key body
at_signature-found lib key b body sig p h = elim (Bool-cases (is_empty body || is_empty sig)) [
  | inl e ↦ ground (arith, e)
  | inr e ↦ elim (Option-cases (lib.decode64 sig)) [
    | inl n ↦ ground (arith, e, n)
    | inr (want, k) ↦ elim (Bool-cases (runes_eq (lib.encode64 want) sig)) [
      | inl c ↦ elim (Bool-cases (runes_eq (lib.mac key body) want)) [
        | inl m ↦
            sym (runes_eq→≡ (lib.encode64 want) sig c)
            ∙ ap lib.encode64 (sym (runes_eq→≡ (lib.mac key body) want m))
        | inr m ↦ ground (arith, e, k, c, m)
      ]
      | inr c ↦ ground (arith, e, k, c)
    ]
  ]
]

-- A token that is accepted, for whatever query, is a body and the one signature that Encode writes
-- under the same key for that body: no other spelling of the signature is let through.
pub decode_cursor-signed :
    (lib : Libraries) (key : List ℕ) (b : Binding) (token : Runes) (p : Position)
    → decode_cursor lib key b token ≡ found p
    → (body : Runes) × (token ≡ signed lib key body)
unfolding decode_cursor
decode_cursor-signed lib key b token p h = elim (Option-cases (cut_dot token)) [
  | inl n ↦ absurd (ground (arith, n))
  | inr ((body, sig), k) ↦
      let parts : at_parts lib key b (some (body, sig)) ≡ found p =
        ap (at_parts lib key b) (sym k) ∙ h in
      (
        body,
        cut_dot-some token body sig k
            ∙ ap (λ x. body ++ dot ∷ x) (at_signature-found lib key b body sig p parts),
      )
]

at_payload-decided :
    (lib : Libraries) (b asked : Binding) (p : Position)
    → (p.id == 0) ≡ false
    → at_payload lib asked (some (payload_of lib b p)) ≡ (
        if runes_eq (binding_fingerprint lib b) (binding_fingerprint lib asked)
        then found (record { time = lib.of_micro (lib.unix_micro p.time); id = p.id })
        else rejected binding_mismatch)
at_payload-decided lib b asked p named =
    elim (Bool-cases (runes_eq (binding_fingerprint lib b) (binding_fingerprint lib asked))) [
      | inl e ↦ rw (named, e) refl
      | inr e ↦ rw (named, e) refl
    ]

-- A position with an id, encoded for one query and decoded under the same key for any query, is found
-- again, its time to the microsecond, where the two queries have one fingerprint, and is refused with
-- ErrBinding where they have not; where base64url reads back what it writes, writes no dot, and writes
-- nothing only for nothing, JSON reads back the payload that it wrote, not as nothing, and a MAC is
-- not empty.
pub decode_cursor-encode_cursor :
    (lib : Libraries) (key : List ℕ) (b asked : Binding) (p : Position) (raw : List ℕ)
    → ((bytes : List ℕ) → lib.decode64 (lib.encode64 bytes) ≡ some bytes)
    → ((bytes : List ℕ) → every (λ r. not (r == dot)) (lib.encode64 bytes) ≡ true)
    → ((bytes : List ℕ) → is_empty (lib.encode64 bytes) ≡ is_empty bytes)
    → ((body : Runes) → is_empty (lib.mac key body) ≡ false)
    → is_empty raw ≡ false
    → lib.marshal (payload_of lib b p) ≡ some raw
    → lib.unmarshal raw ≡ some (payload_of lib b p)
    → (p.id == 0) ≡ false
    → (encode_cursor lib key b p ≡ issued (signed lib key (lib.encode64 raw)))
      × (decode_cursor lib key asked (signed lib key (lib.encode64 raw)) ≡ (
          if runes_eq (binding_fingerprint lib b) (binding_fingerprint lib asked)
          then found (record { time = lib.of_micro (lib.unix_micro p.time); id = p.id })
          else rejected binding_mismatch))
unfolding decode_cursor encode_cursor
decode_cursor-encode_cursor lib key b asked p raw reads plain empty tagged full written parsed
      named =
    let body = lib.encode64 raw in
    let tag = lib.mac key body in
    (
      rw (named, written) refl,
      ap (at_parts lib key asked) (cut_dot-append body (sign_body lib key body) (plain raw))
          ∙ rw
              (
                empty raw,
                full,
                empty tag,
                tagged body,
                reads tag,
                runes_eq_refl (lib.encode64 tag),
                runes_eq_refl tag,
                reads raw,
                parsed,
              )
              (at_payload-decided lib b asked p named),
    )
