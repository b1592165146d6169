-- ===== src/Webhook/Signature.antt =====
-- internal/webhook/webhook.go: ValidateSecret, Sign, ParseSignature and Verify.
--
-- What the file takes from other packages is a parameter: `hmac_hex` is the hex of HMAC-SHA256 under a
-- secret of a text and the body behind it, `decode_hex` hex.DecodeString, `decode_base64`
-- base64.RawURLEncoding, `format_int` and `parse_int` the decimals of an int64, `unix` Time.Unix, and
-- `since now t` the Duration now.Sub(time.Unix(t, 0)). A Duration is an int64.
pub mod Laws
pub mod Tests
use tenant_api_platform.Prelude.{
  ℕ, Bool, true, false, not, ◌||◌, ◌&&◌, Option, none, some, List, [], ◌∷◌, ◌++◌, ltb, ◌==◌,
  if◌then◌else◌,
}
use tenant_api_platform.Prelude.Int64.{ℤ, pos, ltb_ℤ, sub64}
use tenant_api_platform.Prelude.Runes.{Runes, runes, runes_eq, byte_len, trim_space}
use tenant_api_platform.Audit.{is_some}
use tenant_api_platform.Client.{split_commas}

pub record Signing : Type 0 where
  pub hmac_hex : Runes → Runes → List ℕ → Runes
  pub decode_hex : Runes → Option (List ℕ)
  pub decode_base64 : Runes → Option (List ℕ)
  pub format_int : ℤ → Runes
  pub parse_int : Runes → Option ℤ
  pub unix : ℕ → ℤ
  pub since : ℕ → ℤ → ℤ

-- The errors of ParseSignature, and then those of Verify.
pub data Checked : Type 0 where
  not_an_integer no_timestamp no_digest : Checked
  outside_tolerance digest_not_hex computed_not_hex no_match : Checked
  verified : Checked

-- What is behind a prefix.
unfoldable pub cut_prefix : Runes → Runes → Option Runes
cut_prefix [] s = some s
cut_prefix (p ∷ ps) [] = none
cut_prefix (p ∷ ps) (r ∷ s) = let rest = cut_prefix ps s in if p == r then rest else none

abbrev secret_body_ok : Signing → Option Runes → Bool
secret_body_ok lib none = false
secret_body_ok lib (some raw) =
    not (ltb (byte_len raw) 32 || ltb 128 (byte_len raw)) && is_some (lib.decode_base64 raw)

-- ValidateSecret: whether there is no error.
unfoldable pub validate_secret : Signing → Runes → Bool
validate_secret lib secret = secret_body_ok lib (cut_prefix (runes "whsec_") secret)

-- digestFor.
abbrev pub digest_for : Signing → Runes → ℤ → List ℕ → Runes
digest_for lib secret t body = lib.hmac_hex secret (lib.format_int t ++ runes ".") body

-- Sign.
unfoldable pub sign : Signing → Runes → ℕ → List ℕ → Runes
sign lib secret time body =
    (runes "t=" ++ lib.format_int (lib.unix time))
    ++ 0x2c ∷ (runes "v1=" ++ digest_for lib secret (lib.unix time) body)

-- The loop's variables; `bad_timestamp` is the return from inside it.
pub data Scan : Type 0 where
  bad_timestamp : Scan
  scanned : Option ℤ → Option Runes → Scan

abbrev with_timestamp : Option ℤ → Option Runes → Scan
with_timestamp none digest = bad_timestamp
with_timestamp (some t) digest = scanned (some t) digest

abbrev scan_fields : Signing → Option ℤ → Option Runes → Option Runes → Option Runes → Scan
scan_fields lib timestamp digest (some raw) after_v1 = with_timestamp (lib.parse_int raw) digest
scan_fields lib timestamp digest none (some after) = scanned timestamp (some after)
scan_fields lib timestamp digest none none = scanned timestamp digest

abbrev pub scan_part : Signing → Runes → Scan → Scan
scan_part lib part bad_timestamp = bad_timestamp
scan_part lib part (scanned timestamp digest) =
    scan_fields lib timestamp digest (cut_prefix (runes "t=") part) (cut_prefix (runes "v1=") part)

unfoldable pub scan_parts : Signing → List Runes → Scan → Scan
scan_parts lib [] st = st
scan_parts lib (part ∷ parts) st = scan_parts lib parts (scan_part lib (trim_space part) st)

-- ParseSignature, up to the checks at its end.
unfoldable pub parse_signature : Signing → Runes → Scan
parse_signature lib header = scan_parts lib (split_commas header) (scanned none none)

-- The skew, negated where it is negative, as an int64 is.
abbrev pub magnitude : ℤ → ℤ
magnitude skew = if ltb_ℤ skew (pos 0) then sub64 (pos 0) skew else skew

abbrev pub compare_digests : Option (List ℕ) → Option (List ℕ) → Checked
compare_digests none want = digest_not_hex
compare_digests (some got) none = computed_not_hex
compare_digests (some got) (some want) = if runes_eq got want then verified else no_match

abbrev pub check_scan : Signing → Runes → List ℕ → ℕ → ℤ → Scan → Checked
check_scan lib secret body now tolerance bad_timestamp = not_an_integer
check_scan lib secret body now tolerance (scanned none digest) = no_timestamp
check_scan lib secret body now tolerance (scanned (some t) none) = no_digest
check_scan lib secret body now tolerance (scanned (some t) (some digest)) =
    if ltb_ℤ tolerance (magnitude (lib.since now t))
    then outside_tolerance
    else compare_digests (lib.decode_hex digest) (lib.decode_hex (digest_for lib secret t body))

-- Verify.
unfoldable pub verify : Signing → Runes → Runes → List ℕ → ℕ → ℤ → Checked
verify lib secret header body now tolerance =
    check_scan lib secret body now tolerance (parse_signature lib header)
