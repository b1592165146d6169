-- ===== src/Idempotency/Headers/Laws.antt =====
-- The headers of a stored response, read back (internal/idempotency/capture.go).
use mathlib.Core.List.{append-nil, append_assoc}
use tenant_api_platform.Prelude.{
  true, false, List, [], ◌∷◌, ◌++◌, ◌≡◌, refl, sym, ◌∙◌, ap, inl, inr, Bool-cases, Bool-no_conf,
  select, if◌then◌else◌,
}
use tenant_api_platform.Prelude.Runes.{Runes, runes, runes_eq, runes_eq→≡, runes_eq_refl}
use tenant_api_platform.Idempotency.Protocol.{Header}
use tenant_api_platform.Idempotency.Headers.{
  values_of, add_value, add_values, valid_header_name, valid_header_value, content_type, location,
  etag, stored_field, decode_from, decode_headers, encode_headers,
}

-- Two names that differ are not both a third.
apart : (j name k : Runes) → runes_eq j name ≡ false → runes_eq j k ≡ true → runes_eq name k ≡ false
apart j name k e m = elim (Bool-cases (runes_eq name k)) [
  | inl n ↦
      let one = runes_eq→≡ j k m in
      let two = runes_eq→≡ name k n in
      let refuted : runes_eq j name ≡ true =
        ap (λ a. runes_eq a name) (one ∙ sym two) ∙ runes_eq_refl name in
      absurd (Bool-no_conf refuted e)
  | inr n ↦ n
]

values_of-add_value :
    (k name v : Runes) (h : Header)
    → values_of k (add_value name v h)
      ≡ (if runes_eq name k then values_of k h ++ v ∷ [] else values_of k h)
unfolding values_of add_value
values_of-add_value k name v [] = refl
values_of-add_value k name v ((j, vs) ∷ h) = elim (Bool-cases (runes_eq j name)) [
  | inl e ↦
      let same : j ≡ name = runes_eq→≡ j name e in
      let k_same : runes_eq name k ≡ runes_eq j k = ap (λ n. runes_eq n k) (sym same) in
      elim (Bool-cases (runes_eq j k)) [
        | inl m ↦ rw (e, k_same, m) refl
        | inr m ↦ rw (e, k_same, m) refl
      ]
  | inr e ↦ elim (Bool-cases (runes_eq j k)) [
    | inl m ↦ let other : runes_eq name k ≡ false = apart j name k e m in rw (e, other, m) refl
    | inr m ↦ rw (e, m) (values_of-add_value k name v h)
  ]
]

values_of-add_values :
    (k name : Runes) (vs : List Runes) (h : Header)
    → values_of k (add_values name vs h)
      ≡ (if runes_eq name k then values_of k h ++ select valid_header_value vs else values_of k h)
unfolding add_values
values_of-add_values k name [] h = elim (Bool-cases (runes_eq name k)) [
  | inl m ↦ rw m (sym (append-nil (values_of k h)))
  | inr m ↦ rw m refl
]
values_of-add_values k name (v ∷ vs) h = elim (Bool-cases (valid_header_value v)) [
  | inl e ↦
      let rest = values_of-add_values k name vs (add_value name v h) in
      let one = values_of-add_value k name v h in
      elim (Bool-cases (runes_eq name k)) [
        | inl m ↦
            rw (e, m)
              ((rw m at rest)
                ∙ ap (λ l. l ++ select valid_header_value vs) (rw m at one)
                ∙ append_assoc (values_of k h) (v ∷ []) (select valid_header_value vs))
        | inr m ↦ rw (e, m) ((rw m at rest) ∙ (rw m at one))
      ]
  | inr e ↦ rw e (values_of-add_values k name vs h)
]

-- A stored field, decoded, adds its values.
decode_from-stored_field :
    (canonical : Runes → Runes) (name : Runes) (vs : List Runes) (h rest : Header)
    → valid_header_name name ≡ true
    → decode_from canonical h (stored_field name vs ++ rest)
      ≡ decode_from canonical (add_values (canonical name) vs h) rest
unfolding decode_from add_values
decode_from-stored_field canonical name [] h rest ok_name = refl
decode_from-stored_field canonical name (v ∷ vs) h rest ok_name = rw ok_name refl

done_decoding : (canonical : Runes → Runes) (h : Header) → decode_from canonical h [] ≡ h
unfolding decode_from
done_decoding canonical h = refl

valid_content_type : valid_header_name content_type ≡ true
unfolding valid_header_name
valid_content_type = refl

valid_location : valid_header_name location ≡ true
unfolding valid_header_name
valid_location = refl

valid_etag : valid_header_name etag ≡ true
unfolding valid_header_name
valid_etag = refl

-- The three steps of the decoding.
unrolled :
    (canonical : Runes → Runes) (h : Header)
    → decode_headers canonical (encode_headers canonical h)
      ≡ add_values (canonical etag) (values_of (canonical etag) h) (
          add_values
            (canonical location)
            (values_of (canonical location) h)
            (add_values (canonical content_type) (values_of (canonical content_type) h) []))
unfolding encode_headers
unrolled canonical h =
    decode_from-stored_field canonical content_type _ _ _ valid_content_type
    ∙ decode_from-stored_field canonical location _ _ _ valid_location
    ∙ decode_from-stored_field canonical etag _ _ _ valid_etag
    ∙ done_decoding canonical _

-- What is found under a name after the values of three names were added.
layered :
    (k ct loc et : Runes) (a b c : List Runes)
    → values_of k (add_values et c (add_values loc b (add_values ct a []))) ≡ (
        let first = if runes_eq ct k then select valid_header_value a else [] in
        let second = if runes_eq loc k then first ++ select valid_header_value b else first in
        if runes_eq et k then second ++ select valid_header_value c else second)
unfolding values_of
layered k ct loc et a b c =
    values_of-add_values k et c _
    ∙ ap (λ x. if runes_eq et k then x ++ select valid_header_value c else x)
        (values_of-add_values k loc b _
          ∙ ap (λ x. if runes_eq loc k then x ++ select valid_header_value b else x)
              (values_of-add_values k ct a []))

module _ (canonical : Runes → Runes) (h : Header)
    (own_content_type : canonical content_type ≡ content_type)
    (own_location : canonical location ≡ location) (own_etag : canonical etag ≡ runes "Etag") where
  named :
      decode_headers canonical (encode_headers canonical h)
      ≡ add_values (runes "Etag") (values_of (runes "Etag") h) (
          add_values location
            (values_of location h)
            (add_values content_type (values_of content_type h) []))
  named =
      unrolled canonical h
      ∙ ap
          (λ n. add_values n (values_of n h) (
            add_values (canonical location) (values_of (canonical location) h)
              (add_values (canonical content_type) (values_of (canonical content_type) h) [])))
          own_etag
      ∙ ap
          (λ n. add_values (runes "Etag") (values_of (runes "Etag") h) (
            add_values n (values_of n h)
              (add_values (canonical content_type) (values_of (canonical content_type) h) [])))
          own_location
      ∙ ap
          (λ n.
            add_values (runes "Etag") (values_of (runes "Etag") h)
              (add_values location (values_of location h) (add_values n (values_of n h) [])))
          own_content_type

  -- A stored response is replayed with the headers that it had: whatever headers a handler set, what
  -- is read back of the stored ones has the same values of Content-Type, of Location and of ETag, in
  -- their order, less the values that hold a line break or a NUL, where net/http's canonical form of
  -- the first two names is themselves and of the third `Etag`.
  pub decode_headers-encode_headers :
      (values_of content_type (decode_headers canonical (encode_headers canonical h))
        ≡ select valid_header_value (values_of content_type h))
      × (values_of location (decode_headers canonical (encode_headers canonical h))
          ≡ select valid_header_value (values_of location h))
      × (values_of (runes "Etag") (decode_headers canonical (encode_headers canonical h))
          ≡ select valid_header_value (values_of (runes "Etag") h))
  unfolding runes_eq
  decode_headers-encode_headers = (
    ap (values_of content_type) named
        ∙ layered content_type content_type location (runes "Etag") _ _ _,
    ap (values_of location) named ∙ layered location content_type location (runes "Etag") _ _ _,
    ap (values_of (runes "Etag")) named
        ∙ layered (runes "Etag") content_type location (runes "Etag") _ _ _,
  )
