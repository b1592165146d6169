-- ===== src/Idempotency/Tests.antt =====
-- Requests that are retried with a key (internal/idempotency and internal/httpx/idempotency.go).
use tenant_api_platform.Prelude.{
  ℕ, ◌+◌, true, some, [], ◌∷◌, ◌≡◌, refl, arith, select, if◌then◌else◌, ◌==◌, ltb, length, ◌⊎◌,
}
use tenant_api_platform.Prelude.Runes.{
  Runes, runes, runes_eq, trim_space, trim_left, trim_right, cons_trimmed, is_space, byte_len,
}
use tenant_api_platform.Authz.Roles.{admin, valid_role}
use tenant_api_platform.Tenant.{Authorized, kind_human, auth_valid, scope_valid}
use tenant_api_platform.Idempotency.Protocol.{
  validate_key, Hashes, fingerprint, Header, header, bytes, new_capture, max_stored_body,
  capture_from, in_progress_now, fingerprint_mismatch,
}
use tenant_api_platform.Idempotency.Protocol.Laws.{all_bytes, capture_from-all_bytes}
use tenant_api_platform.Idempotency.Headers.{
  values_of, content_type, location, valid_header_value, encode_headers, decode_headers,
}
use tenant_api_platform.Idempotency.Headers.Laws.{decode_headers-encode_headers}
use tenant_api_platform.Idempotency.Store.{
  KeyStore, World, proceed, refused, begin, begin_loop, try_claim, insert_claim, complete, done,
}
use tenant_api_platform.Idempotency.Store.Outcomes.{begin-exclusive, begin-retakes}
use tenant_api_platform.Idempotency.Middleware.{
  Request, Handled, problem, content, read_body_once, route_pattern, serve, replayed,
}
use tenant_api_platform.Idempotency.Middleware.Laws.{
  KeyedRequest, fingerprint_of, serve-once, response, kept,
}

abbrev canonical : Runes → Runes
canonical s = if runes_eq s (runes "ETag") then runes "Etag" else s

abbrev store : KeyStore
store = record { retention = 1000; lease = 100; canonical = canonical }

abbrev caller : Authorized
caller = record {
  scope = record { id = 7 };
  kind = kind_human;
  user_id = 3;
  role = admin;
  key_id = 0;
}

abbrev world : ℕ → World
world t = record { now = λ n. t; others = λ n ks. ks }

abbrev key : Runes
key = 97 ∷ 98 ∷ []

abbrev hashes : Hashes
hashes = record {
  upper = λ r. r;
  of_body = λ b. elim b [ [] ↦ 0 | x ∷ xs ↦ x ];
  of_parts = λ method path query b. b;
}

abbrev handler : ℕ → Handled × ℕ
handler n = (
  record {
    headers = (content_type, runes "application/json" ∷ []) ∷ [];
    writes = header 201 ∷ bytes (123 ∷ 125 ∷ []) ∷ [];
  },
  n + 1,
)

-- The two requests name different resources.
abbrev issue : Runes → Request
issue path = record {
  method = runes "POST";
  path = path;
  pattern = runes "/invoices/{id}/issue";
  raw_query = [];
  keys = key ∷ [];
  caller = some caller;
  body = content (49 ∷ []);
}

issue-KeyedRequest : (path : Runes) → KeyedRequest (issue path) key caller (49 ∷ [])
unfolding runes_eq trim_space trim_left trim_right cons_trimmed is_space read_body_once
issue-KeyedRequest path = record {
  unsafe = refl;
  value = key;
  rest = [];
  carries = refl;
  trimmed = refl;
  caller = refl;
  content = refl;
}

first_claim : (begin store caller key 5 (world 10) []).0 ≡ proceed
unfolding begin begin_loop try_claim insert_claim auth_valid scope_valid valid_role validate_key
    trim_space trim_left trim_right cons_trimmed is_space byte_len
first_claim = refl

first_request :
    (begin store caller key
      (fingerprint_of hashes (issue (runes "/invoices/1/issue")) (49 ∷ []))
      (world 10)
      []).0
    ≡ proceed
unfolding begin begin_loop try_claim insert_claim auth_valid scope_valid valid_role validate_key
    trim_space trim_left trim_right cons_trimmed is_space byte_len
first_request = refl

known : auth_valid caller ≡ true
unfolding auth_valid scope_valid valid_role
known = refl

first_recorded :
    (complete store caller key
      (response store hashes handler key caller caller
        (issue (runes "/invoices/1/issue"))
        (issue (runes "/invoices/2/issue"))
        (49 ∷ [])
        (world 10)
        (world 20)
        11
        21
        (λ k. k)
        (λ k. k)
        []
        []
        0
        1)
      11
      (begin store caller key
        (fingerprint_of hashes (issue (runes "/invoices/1/issue")) (49 ∷ []))
        (world 10)
        []).1).0
    ≡ done
unfolding complete begin begin_loop try_claim insert_claim auth_valid scope_valid valid_role
    validate_key trim_space trim_left trim_right cons_trimmed is_space byte_len capture_from
    runes_eq fingerprint
first_recorded = refl

begin-exclusive_example :
    (begin store caller key 6 (world 50) (begin store caller key 5 (world 10) []).1).0
    ≡ (if 5 == 6 then refused in_progress_now else refused fingerprint_mismatch)
begin-exclusive_example =
    begin-exclusive store caller caller key 5 6 (world 10) (world 50) [] (omega arith) (λ n k h. h)
      first_claim 10 (λ n. omega arith) known refl (λ n r k h. h) (λ n. omega arith)

begin-retakes_example :
    (begin store caller key 5 (world 200) (begin store caller key 5 (world 10) []).1).0 ≡ proceed
begin-retakes_example =
    begin-retakes store caller caller key 5 (world 10) (world 200) [] (omega arith) (λ n k h. h)
      first_claim 10 (λ n. omega arith) known refl (λ n r k h. h) (λ n. omega arith)

same_route :
    route_pattern (issue (runes "/invoices/2/issue"))
    ≡ route_pattern (issue (runes "/invoices/1/issue"))
unfolding route_pattern
same_route = refl

serve-once_example :
    ((serve store hashes
        (world 20)
        21
        (λ k. k)
        handler
        (issue (runes "/invoices/2/issue"))
        (serve store hashes
          (world 10)
          11
          (λ k. k)
          handler
          (issue (runes "/invoices/1/issue"))
          []
          0).1
        1).2
      ≡ 1)
    × ((serve store hashes
          (world 20)
          21
          (λ k. k)
          handler
          (issue (runes "/invoices/2/issue"))
          (serve store hashes
            (world 10)
            11
            (λ k. k)
            handler
            (issue (runes "/invoices/1/issue"))
            []
            0).1
          1).0
        ≡ (if (capture_from new_capture (handler 0).0.writes).overflow
            then problem 409
            else replayed 201 (
                kept store hashes handler key caller caller
                  (issue (runes "/invoices/1/issue"))
                  (issue (runes "/invoices/2/issue"))
                  (49 ∷ [])
                  (world 10)
                  (world 20)
                  11
                  21
                  (λ k. k)
                  (λ k. k)
                  []
                  []
                  0
                  1)))
unfolding capture_from
serve-once_example =
    serve-once store hashes handler key caller caller (issue (runes "/invoices/1/issue"))
      (issue (runes "/invoices/2/issue")) (49 ∷ []) (world 10) (world 20) 11 21 (λ k. k) (λ k. k) []
      [] 0 1 (omega arith) (λ n k h. h) (λ x k h. h)
      (issue-KeyedRequest (runes "/invoices/1/issue"))
      (issue-KeyedRequest (runes "/invoices/2/issue")) refl same_route refl first_request
      first_recorded 10 (λ n. omega arith) known refl (λ n r k h. h) (omega arith)

abbrev sent : Header
sent = (content_type, runes "text/plain" ∷ []) ∷ (runes "Etag", runes "1" ∷ (10 ∷ []) ∷ []) ∷ []

own_content_type : canonical content_type ≡ content_type
unfolding runes_eq
own_content_type = refl

own_location : canonical location ≡ location
unfolding runes_eq
own_location = refl

own_etag : canonical (runes "ETag") ≡ runes "Etag"
unfolding runes_eq
own_etag = refl

decode_headers-encode_headers_example :
    (values_of content_type (decode_headers canonical (encode_headers canonical sent))
      ≡ select valid_header_value (values_of content_type sent))
    × (values_of location (decode_headers canonical (encode_headers canonical sent))
        ≡ select valid_header_value (values_of location sent))
    × (values_of (runes "Etag") (decode_headers canonical (encode_headers canonical sent))
        ≡ select valid_header_value (values_of (runes "Etag") sent))
decode_headers-encode_headers_example =
    decode_headers-encode_headers canonical sent own_content_type own_location own_etag

capture_from-all_bytes_example :
    ((capture_from new_capture (bytes (1 ∷ []) ∷ header 500 ∷ bytes (2 ∷ []) ∷ [])).overflow
      ≡ ltb max_stored_body
          (length (all_bytes (bytes (1 ∷ []) ∷ header 500 ∷ bytes (2 ∷ []) ∷ []))))
    × (((capture_from new_capture (bytes (1 ∷ []) ∷ header 500 ∷ bytes (2 ∷ []) ∷ [])).overflow
          ≡ true)
        ⊎ ((capture_from new_capture (bytes (1 ∷ []) ∷ header 500 ∷ bytes (2 ∷ []) ∷ [])).body
            ≡ all_bytes (bytes (1 ∷ []) ∷ header 500 ∷ bytes (2 ∷ []) ∷ [])))
capture_from-all_bytes_example =
    capture_from-all_bytes (bytes (1 ∷ []) ∷ header 500 ∷ bytes (2 ∷ []) ∷ [])
