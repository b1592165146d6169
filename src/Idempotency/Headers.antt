-- ===== src/Idempotency/Headers.antt =====
-- internal/idempotency/capture.go: the headers that are stored with a response.
--
-- `canonical` is net/http's CanonicalHeaderKey. The column is jsonb: what is stored is the map. That
-- jsonb refuses a \u0000 in a value is left out.
pub mod Laws
use tenant_api_platform.Prelude.{
  ℕ, Bool, true, false, not, ◌&&◌, ◌||◌, List, [], ◌∷◌, ◌++◌, Option, none, some, leb, ◌==◌, any,
  if◌then◌else◌, select,
}
use tenant_api_platform.Prelude.Runes.{Runes, runes, runes_eq}
use tenant_api_platform.Audit.{is_empty}
use tenant_api_platform.Idempotency.Protocol.{Header}

-- h.Values(name), for a canonical name.
unfoldable pub values_of : Runes → Header → List Runes
values_of name [] = []
values_of name ((k, vs) ∷ h) = let rest = values_of name h in if runes_eq k name then vs else rest

-- h.Add(name, v), for a canonical name.
unfoldable pub add_value : Runes → Runes → Header → Header
add_value name v [] = (name, v ∷ []) ∷ []
add_value name v ((k, vs) ∷ h) =
    let rest = add_value name v h in
    if runes_eq k name then (k, vs ++ v ∷ []) ∷ h else (k, vs) ∷ rest

abbrev name_rune : ℕ → Bool
name_rune r =
    leb 0x61 r && leb r 0x7a
    || leb 0x41 r && leb r 0x5a
    || leb 0x30 r && leb r 0x39
    || r == 0x2d
    || r == 0x5f

-- validHeaderName.
unfoldable pub valid_header_name : Runes → Bool
valid_header_name name = not (is_empty name) && not (any (λ r. not (name_rune r)) name)

-- validHeaderValue.
unfoldable pub valid_header_value : Runes → Bool
valid_header_value v = not (any (λ r. r == 0x0d || r == 0x0a || r == 0) v)

abbrev pub content_type : Runes
content_type = runes "Content-Type"

abbrev pub location : Runes
location = runes "Location"

abbrev pub etag : Runes
etag = runes "ETag"

abbrev pub replayable_headers : List Runes
replayable_headers = content_type ∷ location ∷ etag ∷ []

abbrev pub stored_field : Runes → List Runes → Header
stored_field name [] = []
stored_field name (v ∷ vs) = (name, v ∷ vs) ∷ []

abbrev pub encode_fields : (Runes → Runes) → Header → List Runes → Header
encode_fields canonical h [] = []
encode_fields canonical h (name ∷ names) =
    stored_field name (values_of (canonical name) h) ++ encode_fields canonical h names

-- encodeHeaders. No field to keep is NULL.
unfoldable pub encode_headers : (Runes → Runes) → Header → Header
encode_headers canonical h = encode_fields canonical h replayable_headers

unfoldable pub add_values : Runes → List Runes → Header → Header
add_values name [] h = h
add_values name (v ∷ vs) h =
    add_values name vs (if valid_header_value v then add_value name v h else h)

abbrev pub decode_field : (Runes → Runes) → Runes → List Runes → Header → Header
decode_field canonical name vs h =
    if valid_header_name name then add_values (canonical name) vs h else h

unfoldable pub decode_from : (Runes → Runes) → Header → Header → Header
decode_from canonical h [] = h
decode_from canonical h ((name, vs) ∷ stored) =
    decode_from canonical (decode_field canonical name vs h) stored

-- decodeHeaders.
abbrev pub decode_headers : (Runes → Runes) → Header → Header
decode_headers canonical stored = decode_from canonical [] stored
