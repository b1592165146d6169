-- ===== src/Httperr.antt =====
-- internal/platform/httperr/status.go and apperr/util.go: the response that a domain error gets.
use tenant_api_platform.Prelude.{
  ℕ, String, Bool, true, false, Option, none, some, Err, not_found, conflict, no_scope, forbidden,
  unauthorized, version_conflict, validation, unavailable, internal, invalid, ◌≡◌, ◌↔◌, ◌<◌, arith,
}

-- The message is left out: it is the error's own text or a fixed one.
pub record Problem : Type 0 where
  pub status : ℕ
  pub code : String
  pub field : Option String

abbrev problem : ℕ → String → Problem
problem status code = record { status = status; code = code; field = none }

-- The function `Map`.
unfoldable pub map_error : Err → Problem
map_error (invalid field) = record { status = 400; code = "validation_failed"; field = some field }
map_error not_found = problem 404 "not_found"
map_error unauthorized = problem 401 "unauthorized"
map_error forbidden = problem 403 "forbidden"
map_error version_conflict = problem 409 "version_conflict"
map_error conflict = problem 409 "conflict"
map_error validation = problem 400 "validation_failed"
map_error unavailable = problem 503 "service_unavailable"
map_error no_scope = problem 500 "internal_error"
map_error internal = problem 500 "internal_error"

unfoldable pub client_safe : Err → Bool
client_safe not_found = true
client_safe (invalid field) = true
client_safe validation = true
client_safe conflict = true
client_safe version_conflict = true
client_safe unauthorized = true
client_safe forbidden = true
client_safe _ = false

-- A message is published exactly on the answers that blame the request, those below 500.
client_safe_iff : (e : Err) → (client_safe e ≡ true) ↔ ((map_error e).status < 500)
unfolding client_safe map_error
client_safe_iff not_found = ground arith
client_safe_iff e = ground arith
