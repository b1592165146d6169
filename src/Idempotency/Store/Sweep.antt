-- ===== src/Idempotency/Store/Sweep.antt =====
-- internal/idempotency/store.go: Sweep.
--
-- The statement runs at `now`. `subject_to_rls` is what the query of pg_roles answers.
use tenant_api_platform.Prelude.{
  ℕ, zero, suc, Bool, not, ◌||◌, [], ◌∷◌, leb, if◌then◌else◌, select, take, any, count,
}
use tenant_api_platform.Prelude.Int64.{ℤ, pos, negsuc}
use tenant_api_platform.Idempotency.Protocol.{ProtocolError, needs_privileged_role}
use tenant_api_platform.Idempotency.Store.{KeyRow, Keys, KeyStore, at_key, is_stale}

abbrev pub sweep_limit : ℤ → ℕ
sweep_limit (pos zero) = 1000
sweep_limit (pos (suc n)) = suc n
sweep_limit (negsuc n) = 1000

-- The WHERE clause of the candidates.
abbrev pub sweepable : ℕ → ℕ → KeyRow → Bool
sweepable lease now r = leb r.expires_at now || is_stale lease now r

-- ORDER BY expires_at.
unfoldable pub insert_by_expiry : KeyRow → Keys → Keys
insert_by_expiry r [] = r ∷ []
insert_by_expiry r (x ∷ ks) =
    let rest = insert_by_expiry r ks in
    if leb r.expires_at x.expires_at then r ∷ x ∷ ks else x ∷ rest

unfoldable pub by_expiry : Keys → Keys
unfolding insert_by_expiry
by_expiry [] = []
by_expiry (r ∷ ks) = insert_by_expiry r (by_expiry ks)

unfoldable pub sweep_candidates : ℕ → ℕ → ℕ → Keys → Keys
sweep_candidates lease limit now ks = take limit (by_expiry (select (sweepable lease now) ks))

-- The rows that the DELETE joins with the candidates.
abbrev pub is_candidate : Keys → KeyRow → Bool
is_candidate candidates r = any (at_key r.tenant_id r.key) candidates

pub data SweepResult : Type 0 where
  swept : ℕ → SweepResult
  refused : ProtocolError → SweepResult

-- The method Sweep: how many rows were deleted.
unfoldable pub sweep : KeyStore → Bool → ℤ → ℕ → Keys → SweepResult × Keys
sweep st subject_to_rls limit now ks =
    if subject_to_rls
    then (refused needs_privileged_role, ks)
    else let candidates = sweep_candidates st.lease (sweep_limit limit) now ks in
      (swept (count (is_candidate candidates) ks), select (λ r. not (is_candidate candidates r)) ks)
