-- ===== src/Audit/Reader.antt =====
-- internal/audit/reader.go: the pages of a tenant's entries.
pub mod Laws
use tenant_api_platform.Prelude.{
  ℕ, ◌+◌, Bool, true, false, not, Result, ok, err, no_scope, Option, none, some, List, [], ◌∷◌, ltb,
  ◌==◌, if◌then◌else◌,
}
use tenant_api_platform.Prelude.Int64.{ℤ, pos, leb_ℤ, ltb_ℤ, pos_part}
use tenant_api_platform.Prelude.Runes.{Runes}
use tenant_api_platform.Db.{Tx, gets, with_identity_tx}
use tenant_api_platform.Tenant.{Authorized, auth_valid, identity}
use tenant_api_platform.Audit.{Entry}
use tenant_api_platform.Cursor.{Position}
use tenant_api_platform.Listing.{Page, query, cut_result}

-- Record: a row of `audit_log`, an entry with what the INSERT adds to it.
pub record AuditRecord (I : Type 0) : Type 0 where
  pub id : ℕ
  pub entry : Entry I
  pub at : ℕ

abbrev pub default_audit_page_size : ℕ
default_audit_page_size = 50

abbrev pub max_audit_page_size : ℕ
max_audit_page_size = 200

-- normalizePageSize.
unfoldable pub audit_page_size : ℤ → ℕ
audit_page_size n =
    if leb_ℤ n (pos 0)
    then default_audit_page_size
    else if ltb_ℤ (pos max_audit_page_size) n
    then max_audit_page_size
    else pos_part n

module _ {I : Type 0} where
  abbrev pub audit_key : AuditRecord I → Position
  audit_key r = record { time = r.at; id = r.id }

  -- The WHERE clause, but for the position.
  abbrev pub entry_of_tenant : ℕ → AuditRecord I → Bool
  entry_of_tenant tenant_id r = r.entry.tenant_id == tenant_id

  abbrev pub list_entries_tx :
      Authorized → Option Position → ℕ → Tx (List (AuditRecord I)) (List (AuditRecord I))
  list_entries_tx auth after limit =
      gets (λ rows. query audit_key (entry_of_tenant auth.scope.id) after (limit + 1) rows)

  -- List.
  unfoldable pub list_entries :
      Authorized
      → Option Position
      → ℤ
      → List (AuditRecord I)
      → Result (Page (AuditRecord I)) × List (AuditRecord I)
  list_entries auth after limit rows =
      if not (auth_valid auth)
      then (err no_scope, rows)
      else cut_result audit_key (audit_page_size limit) (
          with_identity_tx (identity auth) (list_entries_tx auth after (audit_page_size limit))
            rows)
