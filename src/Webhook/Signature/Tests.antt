-- ===== src/Webhook/Signature/Tests.antt =====
-- A signed delivery (internal/webhook/webhook.go).
use tenant_api_platform.Prelude.{Option, none, some, [], ◌∷◌, ◌++◌, ◌≡◌, refl, arith}
use tenant_api_platform.Prelude.Int64.{ℤ, pos, pos_part, sub64, ◌-ℤ◌}
use tenant_api_platform.Prelude.Runes.{Runes, runes, is_space}
use tenant_api_platform.Webhook.Signature.{Signing, outside_tolerance, sign, verify}
use tenant_api_platform.Webhook.Signature.Laws.{verify-sign}

abbrev one_digit : Runes → Option ℤ
one_digit (r ∷ []) = some (pos r)
one_digit _ = none

-- A time is a second, and its decimals are one rune.
abbrev lib : Signing
lib = record {
  hmac_hex = λ secret text body. runes "a" ++ secret;
  decode_hex = some;
  decode_base64 = some;
  format_int = λ t. pos_part t ∷ [];
  parse_int = one_digit;
  unix = pos;
  since = λ now t. sub64 (pos now) t;
}

verify-sign_example :
    verify lib (runes "s") (sign lib (runes "s") 50 (1 ∷ [])) (1 ∷ []) 57 (pos 5)
    ≡ outside_tolerance
unfolding sub64 is_space ◌-ℤ◌
verify-sign_example =
    verify-sign lib (runes "s") 50 57 (1 ∷ []) (runes "as") 5 (omega arith) refl refl refl refl
