-- ===== src/Idempotency/Protocol.antt =====
-- internal/idempotency/idempotency.go and capture.go: keys, fingerprints and captured responses.
--
-- A body is the list of its bytes. The digest of a byte string, crypto/sha256 in hex, is a number.
pub mod Laws
use tenant_api_platform.Prelude.{
  ℕ, ◌+◌, ◌*◌, Bool, true, false, not, List, [], ◌∷◌, ◌++◌, Option, none, some, ltb, ◌==◌,
  if◌then◌else◌, length,
}
use tenant_api_platform.Prelude.Runes.{Runes, byte_len, trim_space}
use tenant_api_platform.Audit.{is_empty}
use tenant_api_platform.Invoice.Validate.{to_upper}

-- The errors of the protocol, and those of the store.
pub data ProtocolError : Type 0 where
  key_blank key_too_long fingerprint_mismatch in_progress_now not_replayable : ProtocolError
  needs_privileged_role : ProtocolError

abbrev pub max_key_length : ℕ
max_key_length = 255

-- ValidateKey.
unfoldable pub validate_key : Runes → Option ProtocolError
validate_key key =
    if is_empty (trim_space key)
    then some key_blank
    else if ltb max_key_length (byte_len key)
    then some key_too_long
    else none

-- What Fingerprint calls: strings.ToUpper on a rune, and the digests of the body and of the four
-- parts that it writes with separators.
pub record Hashes : Type 0 where
  pub upper : ℕ → ℕ
  pub of_body : List ℕ → ℕ
  pub of_parts : Runes → Runes → Runes → ℕ → ℕ

-- Fingerprint.
unfoldable pub fingerprint : Hashes → Runes → Runes → Runes → List ℕ → ℕ
fingerprint h method path query body =
    h.of_parts (to_upper h.upper method) path query (h.of_body body)

-- The response headers, keyed by canonical name.
abbrev pub Header : Type 0
Header = List (Runes × List Runes)

pub record CapturedResponse : Type 0 where
  pub status : ℕ
  pub headers : Header
  pub body : List ℕ
  pub overflow : Bool

-- Replayable.
abbrev pub is_replayable : CapturedResponse → Bool
is_replayable r = not r.overflow

abbrev pub max_stored_body : ℕ
max_stored_body = 65536

-- What a Capture holds of the response written so far.
pub record Capture : Type 0 where
  pub status : ℕ
  pub wrote_header : Bool
  pub body : List ℕ
  pub overflow : Bool

abbrev pub new_capture : Capture
new_capture = record { status = 200; wrote_header = false; body = []; overflow = false }

abbrev pub write_header : ℕ → Capture → Capture
write_header status c =
    if c.wrote_header then c else record c { status = status; wrote_header = true }

abbrev keep_body : List ℕ → Capture → Capture
keep_body b c =
    if c.overflow
    then c
    else if ltb max_stored_body (length c.body + length b)
    then record c { overflow = true }
    else record c { body = c.body ++ b }

abbrev pub write_body : List ℕ → Capture → Capture
write_body b c = keep_body b (record c { wrote_header = true })

-- What a handler does to its ResponseWriter.
pub data Written : Type 0 where
  header : ℕ → Written
  bytes : List ℕ → Written

abbrev pub capture_one : Written → Capture → Capture
capture_one (header status) c = write_header status c
capture_one (bytes b) c = write_body b c

unfoldable pub capture_from : Capture → List Written → Capture
capture_from c [] = c
capture_from c (w ∷ ws) = capture_from (capture_one w c) ws

-- Captured.
abbrev pub captured : Header → Capture → CapturedResponse
captured h c = record { status = c.status; headers = h; body = c.body; overflow = c.overflow }
