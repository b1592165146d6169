-- ===== src/Listing/Tests.antt =====
-- Two rows, read one to a page while they are edited and a third is inserted
-- (internal/project/store.go, internal/invoice/store.go, internal/audit/reader.go).
use mathlib.Core.List.{Perm}
use tenant_api_platform.Prelude.{
  ok, ℕ, zero, suc, true, false, some, none, List, [], ◌∷◌, ◌++◌, map, ◌≡◌, refl, arith, select,
  All,
}
use tenant_api_platform.Prelude.Int64.{pos}
use tenant_api_platform.Prelude.Runes.{runes}
use tenant_api_platform.Authz.Roles.{admin, valid_role}
use tenant_api_platform.Tenant.{Authorized, kind_human, auth_valid, scope_valid}
use tenant_api_platform.Audit.{actor_system}
use tenant_api_platform.Audit.Reader.{AuditRecord, audit_key, entry_of_tenant, list_entries}
use tenant_api_platform.Audit.Reader.Laws.{follow-list_entries}
use tenant_api_platform.Invoice.Lifecycle.{status_draft, normalize_status}
use tenant_api_platform.Invoice.Tables.{Invoice, Tables}
use tenant_api_platform.Invoice.Listing.{invoice_key, shows_invoice, list_invoices}
use tenant_api_platform.Invoice.Listing.Laws.{follow-list_invoices, grown_invoices}
use tenant_api_platform.Project.Tables.{ProjectRow, ProjectTables}
use tenant_api_platform.Project.Listing.{ProjectFilter, project_key, shows_project, list_projects}
use tenant_api_platform.Project.Listing.Laws.{follow-list_projects, grown}
use tenant_api_platform.Listing.{newer, follow}
use tenant_api_platform.Listing.Order.{Descending}
use tenant_api_platform.Listing.Edited.{itself}

abbrev alice : Authorized
alice = record {
  scope = record { id = 7 };
  kind = kind_human;
  user_id = 3;
  role = admin;
  key_id = 0;
}

valid : auth_valid alice ≡ true
unfolding auth_valid scope_valid valid_role
valid = refl

abbrev project : ℕ → ℕ → ProjectRow
project id at = record {
  id = id;
  tenant_id = 7;
  name = runes "Atlas";
  slug = runes "atlas";
  description = [];
  version = 1;
  created_by = some 3;
  created_by_key = none;
  created_at = at;
  updated_at = at;
  archived_at = none;
}

abbrev projects : ProjectTables
projects = record { projects = project 1 10 ∷ project 2 10 ∷ []; trail = [] }

abbrev new_projects : ℕ → List ProjectRow
new_projects zero = []
new_projects (suc i) = project 5 30 ∷ []

abbrev unarchived : ProjectFilter
unarchived = record { include_archived = false }

after_first :
    (i : ℕ) → All (λ y. newer (project_key y) (project_key (project 1 10)) ≡ true) (new_projects i)
after_first zero = tt
after_first (suc i) = (refl, tt)

after_second :
    (i : ℕ) → All (λ y. newer (project_key y) (project_key (project 2 10)) ≡ true) (new_projects i)
after_second zero = tt
after_second (suc i) = (refl, tt)

-- Every row is renamed after the first request.
abbrev rename : ℕ → ProjectRow → ProjectRow
rename zero p = p
rename (suc i) p = record p { name = runes "Globe"; version = 2 }

rename_stays : (i : ℕ) (p : ProjectRow) → project_key (rename i p) ≡ project_key p
rename_stays zero p = refl
rename_stays (suc i) p = refl

rename_kept :
    (i : ℕ) (p : ProjectRow)
    → shows_project 7 unarchived (rename i p) ≡ shows_project 7 unarchived p
rename_kept zero p = refl
rename_kept (suc i) p = refl

follow-list_projects_example :
    (all : List ProjectRow) × (follow
        (λ i after.
          (list_projects alice unarchived after (pos 1) (grown projects rename new_projects i)).0)
        3
        0
        none
      ≡ some all)
    × Perm
        (map project_key all)
        (map project_key (select (shows_project 7 unarchived) projects.projects))
    × Descending itself (map project_key all)
follow-list_projects_example =
    follow-list_projects alice unarchived (pos 1) projects rename new_projects 3 valid
      ((refl, tt), (tt, tt)) rename_stays rename_kept refl (after_first, (after_second, tt))
      (omega arith)

abbrev invoice : ℕ → ℕ → Invoice
invoice id at = record {
  id = id;
  tenant_id = 7;
  number = id;
  status = status_draft;
  currency = runes "EUR";
  subtotal_minor = pos 0;
  tax_minor = pos 0;
  total_minor = pos 0;
  version = 1;
  created_by = some 3;
  created_by_key = none;
  issued_at = none;
  paid_at = none;
  voided_at = none;
  created_at = at;
  updated_at = at;
}

abbrev invoices : Tables
invoices = record {
  counters = [];
  invoices = invoice 1 10 ∷ invoice 2 10 ∷ [];
  items = [];
  events = [];
  outbox = record { endpoints = []; rows = [] };
  trail = [];
}

abbrev new_invoices : ℕ → List Invoice
new_invoices zero = []
new_invoices (suc i) = invoice 5 30 ∷ []

above_first :
    (i : ℕ) → All (λ y. newer (invoice_key y) (invoice_key (invoice 1 10)) ≡ true) (new_invoices i)
above_first zero = tt
above_first (suc i) = (refl, tt)

above_second :
    (i : ℕ) → All (λ y. newer (invoice_key y) (invoice_key (invoice 2 10)) ≡ true) (new_invoices i)
above_second zero = tt
above_second (suc i) = (refl, tt)

known : normalize_status status_draft ≡ ok status_draft
unfolding normalize_status
known = refl

-- Every row has a new total after the first request.
abbrev retotal : ℕ → Invoice → Invoice
retotal zero x = x
retotal (suc i) x = record x { subtotal_minor = pos 9; total_minor = pos 9; version = 2 }

retotal_stays : (i : ℕ) (x : Invoice) → invoice_key (retotal i x) ≡ invoice_key x
retotal_stays zero x = refl
retotal_stays (suc i) x = refl

retotal_kept :
    (i : ℕ) (x : Invoice)
    → shows_invoice 7 status_draft (retotal i x) ≡ shows_invoice 7 status_draft x
retotal_kept zero x = refl
retotal_kept (suc i) x = refl

follow-list_invoices_example :
    (all : List Invoice) × (follow
        (λ i after.
          (list_invoices alice status_draft after
            (pos 1)
            (grown_invoices invoices retotal new_invoices i)).0)
        3
        0
        none
      ≡ some all)
    × Perm
        (map invoice_key all)
        (map invoice_key (select (shows_invoice 7 status_draft) invoices.invoices))
    × Descending itself (map invoice_key all)
follow-list_invoices_example =
    follow-list_invoices alice status_draft (pos 1) invoices retotal new_invoices 3 valid known
      ((refl, tt), (tt, tt)) retotal_stays retotal_kept refl (above_first, (above_second, tt))
      (omega arith)

abbrev entry : ℕ → ℕ → AuditRecord ℕ
entry id at = record {
  id = id;
  entry = record {
    tenant_id = 7;
    actor_id = none;
    actor_kind = actor_system;
    action = runes "project.create";
    resource = runes "project";
    resource_id = some id;
    before = none;
    after = some id;
    request_id = [];
  };
  at = at;
}

abbrev new_entries : ℕ → List (AuditRecord ℕ)
new_entries zero = []
new_entries (suc i) = entry 3 10 ∷ []

beyond_first :
    (i : ℕ) → All (λ y. newer (audit_key y) (audit_key (entry 1 10)) ≡ true) (new_entries i)
beyond_first zero = tt
beyond_first (suc i) = (refl, tt)

beyond_second :
    (i : ℕ) → All (λ y. newer (audit_key y) (audit_key (entry 2 10)) ≡ true) (new_entries i)
beyond_second zero = tt
beyond_second (suc i) = (refl, tt)

follow-list_entries_example :
    (all : List (AuditRecord ℕ)) × (follow
        (λ i after.
          (list_entries alice after (pos 1) ((entry 1 10 ∷ entry 2 10 ∷ []) ++ new_entries i)).0)
        3
        0
        none
      ≡ some all)
    × Perm all (select (entry_of_tenant 7) (entry 1 10 ∷ entry 2 10 ∷ []))
    × Descending audit_key all
follow-list_entries_example =
    follow-list_entries alice (pos 1) (entry 1 10 ∷ entry 2 10 ∷ []) new_entries 3 valid
      ((refl, tt), (tt, tt)) refl (beyond_first, (beyond_second, tt)) (omega arith)
