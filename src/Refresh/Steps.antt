-- ===== src/Refresh/Steps.antt =====
-- Requests on the refresh tables that interleave (internal/authn/refresh.go).
--
-- A state is the tables and the rows that requests have read for Rotate and not yet written from. A
-- step is one committed or rolled back transaction, or, for Rotate, its reading or its writing alone.
pub mod Safe
pub mod Effects
pub mod Invariant
pub mod Kept
pub mod Replayed
pub mod Single
pub mod Spent
use tenant_api_platform.Prelude.{ℕ, Result, ok, List, [], ◌∷◌, ◌≡◌}
use tenant_api_platform.Prelude.Int64.{ℤ}
use tenant_api_platform.Prelude.Runes.{Runes}
use tenant_api_platform.Db.{finish}
use tenant_api_platform.Refresh.Tables.{Token, Sessions}
use tenant_api_platform.Refresh.Store.{
  RefreshStore, Clocks, start_session, revoke_family, revoke_all_for_user,
}
use tenant_api_platform.Refresh.Rotate.{
  unconsumed, rotate_read, rotate_write, revoke_by_presented_token,
}
use mathlib.Core.List.{Memᴰ}

pub record Running : Type 0 where
  pub tables : Sessions
  pub reads : List Token

pub data Step (st : RefreshStore) (x : Running) : Running → Type 0 where
  started :
      (c : Clocks) (family_id : ℕ) (random : Result Runes) (user_id : ℕ) (ttl : ℤ)
      → Step st x
          (record x { tables = (start_session st c family_id random user_id ttl x.tables).1 })
  read :
      (c : Clocks) (hash : ℕ) (t : Token)
      → rotate_read st c hash x.tables ≡ unconsumed t
      → Step st x (record x { reads = t ∷ x.reads })
  written :
      (c : Clocks) (ttl : ℕ) (random : Result Runes) (t : Token)
      → Memᴰ t x.reads
      → Step st x
          (record x { tables = (finish x.tables (rotate_write st c ttl random t x.tables)).1 })
  family_revoked :
      (user_id family_id : ℕ) (reason : Runes) (db_now : ℕ)
      → Step st x (record x { tables = (revoke_family user_id family_id reason db_now x.tables).1 })
  token_revoked :
      (presented reason : Runes) (db_now : ℕ)
      → Step st x
          (record x { tables = (revoke_by_presented_token st presented reason db_now x.tables).1 })
  all_revoked :
      (user_id : ℕ) (reason : Runes) (db_now : ℕ)
      → Step st x (record x { tables = (revoke_all_for_user user_id reason db_now x.tables).1 })

-- States that some steps lead to.
pub data Reach (st : RefreshStore) (x : Running) : Running → Type 0 where
  here : Reach st x x
  after : {y z : Running} → Reach st x y → Step st y z → Reach st x z

-- Before any request.
abbrev pub empty : Running
empty = record { tables = record { families = []; tokens = [] }; reads = [] }
