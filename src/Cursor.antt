-- ===== src/Cursor.antt =====
-- internal/platform/cursor/cursor.go: the signed tokens of paginated listings.
--
-- A byte string is the list of its bytes. What the file takes from other packages is a parameter:
-- `hex_digest` is the SHA-256 in hex of the three parts that fingerprint writes, `mac` HMAC-SHA256
-- under a key, `encode64` and `decode64` base64.RawURLEncoding, `marshal` and `unmarshal`
-- encoding/json on the payload, `unix_micro` and `of_micro` the two conversions of package time.
pub mod Laws
pub mod Tests
use tenant_api_platform.Prelude.{
  ℕ, Bool, true, false, not, ◌||◌, Option, none, some, List, [], ◌∷◌, ◌++◌, ltb, ◌==◌,
  if◌then◌else◌, length, take,
}
use tenant_api_platform.Prelude.Runes.{Runes, runes, runes_eq}
use tenant_api_platform.Audit.{is_empty}

-- ErrMalformed, ErrSignature and ErrBinding.
pub data CursorError : Type 0 where
  malformed signature_mismatch binding_mismatch : CursorError

pub record Binding : Type 0 where
  pub tenant_id : ℕ
  pub resource : Runes
  pub filter : Runes

pub record Position : Type 0 where
  pub time : ℕ
  pub id : ℕ

-- The struct encoded.
pub record Payload : Type 0 where
  pub t : ℕ
  pub i : ℕ
  pub b : Runes

pub record Libraries : Type 0 where
  pub hex_digest : ℕ → Runes → Runes → Runes
  pub mac : List ℕ → Runes → List ℕ
  pub encode64 : List ℕ → Runes
  pub decode64 : Runes → Option (List ℕ)
  pub marshal : Payload → Option (List ℕ)
  pub unmarshal : List ℕ → Option Payload
  pub unix_micro : ℕ → ℕ
  pub of_micro : ℕ → ℕ

-- fingerprint.
unfoldable pub binding_fingerprint : Libraries → Binding → Runes
binding_fingerprint lib b = take 32 (lib.hex_digest b.tenant_id b.resource b.filter)

abbrev pub derivation_label : Runes
derivation_label = runes "tenant-api-platform/cursor/v1"

-- DeriveKey.
abbrev pub derive_key : Libraries → List ℕ → List ℕ
derive_key lib secret = lib.mac secret derivation_label

abbrev pub min_key_len : ℕ
min_key_len = 32

-- NewCodec.
unfoldable pub new_codec : List ℕ → Option (List ℕ)
new_codec key = if ltb (length key) min_key_len then none else some key

abbrev pub dot : ℕ
dot = 0x2e

-- sign.
abbrev pub sign_body : Libraries → List ℕ → Runes → Runes
sign_body lib key body = lib.encode64 (lib.mac key body)

abbrev pub signed : Libraries → List ℕ → Runes → Runes
signed lib key body = body ++ dot ∷ sign_body lib key body

-- What Encode returns: an error that wraps ErrMalformed, one of json.Marshal, or a token.
pub data Encoded : Type 0 where
  nil_position marshal_failed : Encoded
  issued : Runes → Encoded

abbrev pub issue_token : Libraries → List ℕ → Option (List ℕ) → Encoded
issue_token lib key none = marshal_failed
issue_token lib key (some raw) = issued (signed lib key (lib.encode64 raw))

abbrev pub payload_of : Libraries → Binding → Position → Payload
payload_of lib b p = record { t = lib.unix_micro p.time; i = p.id; b = binding_fingerprint lib b }

-- Encode.
unfoldable pub encode_cursor : Libraries → List ℕ → Binding → Position → Encoded
encode_cursor lib key b p =
    if p.id == 0 then nil_position else issue_token lib key (lib.marshal (payload_of lib b p))

abbrev pub in_front : ℕ → Option (Runes × Runes) → Option (Runes × Runes)
in_front r none = none
in_front r (some (before, after)) = some (r ∷ before, after)

-- strings.Cut(token, ".").
unfoldable pub cut_dot : Runes → Option (Runes × Runes)
cut_dot [] = none
cut_dot (r ∷ s) = let rest = cut_dot s in if r == dot then some ([], s) else in_front r rest

pub data Decoded : Type 0 where
  rejected : CursorError → Decoded
  found : Position → Decoded

abbrev pub at_payload : Libraries → Binding → Option Payload → Decoded
at_payload lib b none = rejected malformed
at_payload lib b (some p) =
    if p.i == 0
    then rejected malformed
    else if not (runes_eq p.b (binding_fingerprint lib b))
    then rejected binding_mismatch
    else found (record { time = lib.of_micro p.t; id = p.i })

abbrev pub at_raw : Libraries → Binding → Option (List ℕ) → Decoded
at_raw lib b none = rejected malformed
at_raw lib b (some raw) = at_payload lib b (lib.unmarshal raw)

abbrev pub at_signature : Libraries → List ℕ → Binding → Runes → Runes → Option (List ℕ) → Decoded
at_signature lib key b body sig none = rejected malformed
at_signature lib key b body sig (some want) =
    if not (runes_eq (lib.encode64 want) sig)
    then rejected malformed
    else if not (runes_eq (lib.mac key body) want)
    then rejected signature_mismatch
    else at_raw lib b (lib.decode64 body)

abbrev pub at_parts : Libraries → List ℕ → Binding → Option (Runes × Runes) → Decoded
at_parts lib key b none = rejected malformed
at_parts lib key b (some (body, sig)) =
    if is_empty body || is_empty sig
    then rejected malformed
    else at_signature lib key b body sig (lib.decode64 sig)

-- Decode.
unfoldable pub decode_cursor : Libraries → List ℕ → Binding → Runes → Decoded
decode_cursor lib key b token = at_parts lib key b (cut_dot token)
