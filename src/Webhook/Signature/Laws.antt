-- ===== src/Webhook/Signature/Laws.antt =====
-- What Sign writes is what Verify accepts (internal/webhook/webhook.go).
use tenant_api_platform.Prelude.{
  ℕ, ◌+◌, ◌≤◌, ltb, Bool, true, not, ◌&&◌, none, some, List, [], ◌∷◌, ◌++◌, ◌≡◌, refl, ◌∙◌, ap,
  arith, ◌==◌, if◌then◌else◌, every,
}
use tenant_api_platform.Prelude.Int64.{
  ℤ, pos, negsuc, pos_part, neg_part, max_int64, sub64, wrap64, ltb_ℤ, ◌-ℤ◌,
}
use tenant_api_platform.Prelude.Runes.{
  Runes, runes, runes_eq_refl, is_space, trim_space, trim_left, trim_right, cons_trimmed,
}
use tenant_api_platform.Client.{split_commas}
use tenant_api_platform.Webhook.Signature.{
  Signing, outside_tolerance, verified, cut_prefix, digest_for, sign, scanned, scan_parts,
  parse_signature, magnitude, verify,
}

-- A rune that neither ends a part nor is trimmed.
abbrev pub plain_rune : ℕ → Bool
plain_rune r = not (is_space r) && not (r == 0x2c)

split_commas-plain : (s : Runes) → every plain_rune s ≡ true → split_commas s ≡ s ∷ []
unfolding split_commas
split_commas-plain [] h = refl
split_commas-plain (r ∷ s) h = ground (arith, split_commas-plain s)

split_commas-append :
    (s t : Runes) → every plain_rune s ≡ true → split_commas (s ++ 0x2c ∷ t) ≡ s ∷ split_commas t
unfolding split_commas
split_commas-append [] t h = refl
split_commas-append (r ∷ s) t h = ground (arith, split_commas-append s t)

trim_right-plain : (s : Runes) → every plain_rune s ≡ true → trim_right s ≡ s
unfolding trim_right cons_trimmed
trim_right-plain [] h = refl
trim_right-plain (r ∷ []) h = ground arith
trim_right-plain (r ∷ x ∷ s) h = ground (arith, trim_right-plain (x ∷ s))

trim_space-plain : (s : Runes) → every plain_rune s ≡ true → trim_space s ≡ s
unfolding trim_space trim_left
trim_space-plain [] h = trim_right-plain [] refl
trim_space-plain (r ∷ s) h = ground (arith, trim_right-plain (r ∷ s) h)

timestamp_field :
    (s : Runes) → every plain_rune s ≡ true → every plain_rune (runes "t=" ++ s) ≡ true
unfolding is_space
timestamp_field s h = h

digest_field : (s : Runes) → every plain_rune s ≡ true → every plain_rune (runes "v1=" ++ s) ≡ true
unfolding is_space
digest_field s h = h

scan_parts-fields :
    (lib : Signing) (t : ℤ) (raw digest : Runes)
    → every plain_rune raw ≡ true
    → every plain_rune digest ≡ true
    → lib.parse_int raw ≡ some t
    → scan_parts lib ((runes "t=" ++ raw) ∷ (runes "v1=" ++ digest) ∷ []) (scanned none none)
      ≡ scanned (some t) (some digest)
unfolding scan_parts cut_prefix
scan_parts-fields lib t raw digest h k e =
    rw
      (
        trim_space-plain (runes "t=" ++ raw) (timestamp_field raw h),
        trim_space-plain (runes "v1=" ++ digest) (digest_field digest k),
        e,
      )
      refl

parse_signature-sign :
    (lib : Signing) (secret : Runes) (time : ℕ) (body : List ℕ)
    → every plain_rune (lib.format_int (lib.unix time)) ≡ true
    → every plain_rune (digest_for lib secret (lib.unix time) body) ≡ true
    → lib.parse_int (lib.format_int (lib.unix time)) ≡ some (lib.unix time)
    → parse_signature lib (sign lib secret time body)
      ≡ scanned (some (lib.unix time)) (some (digest_for lib secret (lib.unix time) body))
unfolding parse_signature sign
parse_signature-sign lib secret time body h k e =
    let raw = lib.format_int (lib.unix time) in
    let digest = digest_for lib secret (lib.unix time) body in
    let parts =
      split_commas-append (runes "t=" ++ raw) (runes "v1=" ++ digest) (timestamp_field raw h)
      ∙ ap (λ ps. (runes "t=" ++ raw) ∷ ps)
          (split_commas-plain (runes "v1=" ++ digest) (digest_field digest k)) in
    ap (λ ps. scan_parts lib ps (scanned none none)) parts
    ∙ scan_parts-fields lib (lib.unix time) raw digest h k e

magnitude-distance :
    (skew : ℤ) → neg_part skew ≤ max_int64 → magnitude skew ≡ pos (pos_part skew + neg_part skew)
unfolding sub64 wrap64 ◌-ℤ◌
magnitude-distance (pos n) h = ground arith
magnitude-distance (negsuc n) h = ground arith

within : (tolerance d : ℕ) → ltb_ℤ (pos tolerance) (pos d) ≡ ltb tolerance d
within tolerance d = ground arith

-- A delivery that was signed is verified by whoever has the secret, exactly when the time that lies
-- between the signing and the check, whichever came first, is within the tolerance, and is refused as
-- outside the tolerance when it is not; where that time is not the smallest int64, the decimals and the
-- digest hold neither commas nor spaces, ParseInt reads the decimals back, and the digest is hex.
pub verify-sign :
    (lib : Signing) (secret : Runes) (time now : ℕ) (body bytes : List ℕ) (tolerance : ℕ)
    → neg_part (lib.since now (lib.unix time)) ≤ max_int64
    → every plain_rune (lib.format_int (lib.unix time)) ≡ true
    → every plain_rune (digest_for lib secret (lib.unix time) body) ≡ true
    → lib.parse_int (lib.format_int (lib.unix time)) ≡ some (lib.unix time)
    → lib.decode_hex (digest_for lib secret (lib.unix time) body) ≡ some bytes
    → verify lib secret (sign lib secret time body) body now (pos tolerance) ≡ (
        let skew = lib.since now (lib.unix time) in
        if ltb tolerance (pos_part skew + neg_part skew) then outside_tolerance else verified)
unfolding verify
verify-sign lib secret time now body bytes tolerance small h k e d =
    rw
      (
        parse_signature-sign lib secret time body h k e,
        magnitude-distance (lib.since now (lib.unix time)) small,
        d,
        runes_eq_refl bytes,
      )
      (ap (λ late. if late then outside_tolerance else verified)
        (within tolerance
          (pos_part (lib.since now (lib.unix time)) + neg_part (lib.since now (lib.unix time)))))
