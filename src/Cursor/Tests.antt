-- ===== src/Cursor/Tests.antt =====
-- A cursor of an invoice listing (internal/platform/cursor/cursor.go).
use tenant_api_platform.Prelude.{
  ℕ, ◌+◌, ◌-◌, true, not, Option, none, some, List, [], ◌∷◌, ◌++◌, ◌==◌, length, map, every, ◌≡◌,
  refl, arith,
}
use tenant_api_platform.Prelude.Runes.{Runes, runes, runes_eq}
use tenant_api_platform.Audit.{is_empty}
use tenant_api_platform.Cursor.{
  Libraries, Binding, Position, Payload, binding_fingerprint, dot, signed, issued, payload_of,
  encode_cursor, cut_dot, rejected, found, binding_mismatch, decode_cursor,
}
use tenant_api_platform.Cursor.Laws.{decode_cursor-signed, decode_cursor-encode_cursor}

abbrev unmarshal_list : List ℕ → Option Payload
unmarshal_list (t ∷ i ∷ b) = some (record { t = t; i = i; b = b })
unmarshal_list _ = none

abbrev lib : Libraries
lib = record {
  hex_digest = λ tenant_id resource filter. tenant_id ∷ resource ++ filter;
  mac = λ key body. length key ∷ body;
  encode64 = map (λ x. x + 0x2f);
  decode64 = λ s. some (map (λ x. x - 0x2f) s);
  marshal = λ p. some (p.t ∷ p.i ∷ p.b);
  unmarshal = unmarshal_list;
  unix_micro = λ t. t;
  of_micro = λ t. t;
}

abbrev key : List ℕ
key = 1 ∷ 2 ∷ 3 ∷ []

abbrev invoices : Binding
invoices = record { tenant_id = 7; resource = runes "invoices"; filter = [] }

abbrev projects : Binding
projects = record { tenant_id = 7; resource = runes "projects"; filter = [] }

abbrev last_row : Position
last_row = record { time = 50; id = 12 }

abbrev raw : List ℕ
raw = 50 ∷ 12 ∷ 7 ∷ runes "invoices"

reads : (bytes : List ℕ) → lib.decode64 (lib.encode64 bytes) ≡ some bytes
reads [] = refl
reads (x ∷ bytes) = ground (arith, reads bytes)

plain : (bytes : List ℕ) → every (λ r. not (r == dot)) (lib.encode64 bytes) ≡ true
plain [] = refl
plain (x ∷ bytes) = ground (arith, plain bytes)

kept : (bytes : List ℕ) → is_empty (lib.encode64 bytes) ≡ is_empty bytes
kept [] = refl
kept (x ∷ bytes) = refl

written : lib.marshal (payload_of lib invoices last_row) ≡ some raw
unfolding binding_fingerprint
written = refl

parsed : lib.unmarshal raw ≡ some (payload_of lib invoices last_row)
unfolding binding_fingerprint
parsed = refl

decode_cursor-encode_cursor_example :
    (encode_cursor lib key invoices last_row ≡ issued (signed lib key (lib.encode64 raw)))
    × (decode_cursor lib key projects (signed lib key (lib.encode64 raw))
        ≡ rejected binding_mismatch)
unfolding binding_fingerprint runes_eq
decode_cursor-encode_cursor_example =
    decode_cursor-encode_cursor lib key invoices projects last_row raw reads plain kept
      (λ body. refl) refl written parsed refl

accepted : decode_cursor lib key invoices (signed lib key (lib.encode64 raw)) ≡ found last_row
unfolding decode_cursor cut_dot binding_fingerprint runes_eq
accepted = refl

decode_cursor-signed_example :
    (body : Runes) × (signed lib key (lib.encode64 raw) ≡ signed lib key body)
decode_cursor-signed_example =
    decode_cursor-signed lib key invoices (signed lib key (lib.encode64 raw)) last_row accepted
