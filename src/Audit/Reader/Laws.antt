-- ===== src/Audit/Reader/Laws.antt =====
-- A client that pages through the trail has all of it (internal/audit/reader.go).
use mathlib.Core.List.{Perm}
use tenant_api_platform.Prelude.{
  ℕ, suc, ◌<◌, true, none, some, List, [], ◌++◌, ◌≡◌, refl, arith, select, length, All,
}
use tenant_api_platform.Prelude.Int64.{ℤ}
use tenant_api_platform.Tenant.{Authorized, auth_valid}
use tenant_api_platform.Tenant.Laws.{with_identity_tx-auth}
use tenant_api_platform.Listing.{newer, follow}
use tenant_api_platform.Listing.Order.{Apart, Descending}
use tenant_api_platform.Listing.Walk.{successor, follow_whole}
use tenant_api_platform.Audit.Reader.{
  AuditRecord, audit_page_size, audit_key, entry_of_tenant, list_entries_tx, list_entries,
}

audit_page_size-positive : (n : ℤ) → 0 < audit_page_size n
unfolding audit_page_size
audit_page_size-positive n = ground arith

module _ {I : Type 0} (auth : Authorized) (limit : ℤ) (rows : List (AuditRecord I))
    (later : ℕ → List (AuditRecord I)) where
  -- A reader of a valid caller that asks for the next page as long as one is announced needs no more
  -- requests than there are rows, and one, to have each entry of its tenant once, newest first, if
  -- the ids differ and the entries appended between its requests are newer than those there at the
  -- first, by time or, within one time, by id.
  pub follow-list_entries :
      (fuel : ℕ)
      → auth_valid auth ≡ true
      → Apart audit_key rows
      → later 0 ≡ []
      → All (λ x. (i : ℕ) → All (λ y. newer (audit_key y) (audit_key x) ≡ true) (later i)) rows
      → length rows < fuel
      → (all : List (AuditRecord I)) × (follow
            (λ i after. (list_entries auth after limit (rows ++ later i)).0)
            fuel
            0
            none
          ≡ some all)
        × Perm all (select (entry_of_tenant auth.scope.id) rows)
        × Descending audit_key all
  unfolding list_entries
  follow-list_entries fuel valid apart now fresh h =
      let (m, e) = successor (audit_page_size limit) (audit_page_size-positive limit) in
      follow_whole audit_key (entry_of_tenant auth.scope.id) m rows apart later
        (λ i after. (list_entries auth after limit (rows ++ later i)).0)
        (λ i after.
          rw
            (
              valid,
              e,
              with_identity_tx-auth auth (list_entries_tx auth after (suc m)) (rows ++ later i)
                  valid,
            )
            refl)
        fresh fuel now h
