-- ===== src/Db.antt =====
-- internal/platform/db/tx.go: transactions under a row-level-security identity.
--
-- A closure over a transaction is a function of the database that fails or returns a value with the
-- new database. BeginFunc commits the second and rolls the first back. A statement that the driver
-- fails for a reason of its own (an outage) is the closure's failure `internal`, and is not listed.
pub mod Laws
use tenant_api_platform.Prelude.{
  ℕ, Bool, true, not, ◌||◌, Result, ok, err, Err, no_scope, ◌==◌, if◌then◌else◌,
}

abbrev pub Tx : Type 0 → Type 0 → Type 0
Tx S A = S → Result (A × S)

abbrev pub continue : {S A B : Type 0} → Result (A × S) → (A → Tx S B) → Result (B × S)
continue (ok (a, s)) f = f a s
continue (err e) f = err e

infixl 5 ◌>>=◌ ◌>>◌
abbrev pub ◌>>=◌ : {S A B : Type 0} → Tx S A → (A → Tx S B) → Tx S B
◌>>=◌ m f s = continue (m s) f

abbrev pub ◌>>◌ : {S B : Type 0} → Tx S (Unit {0}) → Tx S B → Tx S B
m >> k = m >>= λ _. k

abbrev pub pure : {S A : Type 0} → A → Tx S A
pure a s = ok (a, s)

abbrev pub fail : {S A : Type 0} → Err → Tx S A
fail e s = err e

abbrev pub lift : {S A : Type 0} → Result A → Tx S A
lift (ok a) s = ok (a, s)
lift (err e) s = err e

abbrev pub check : {S : Type 0} → Bool → Err → Tx S (Unit {0})
check b e s = if b then ok (tt, s) else err e

abbrev pub gets : {S A : Type 0} → (S → A) → Tx S A
gets f s = ok (f s, s)

abbrev pub modify : {S : Type 0} → (S → S) → Tx S (Unit {0})
modify f s = ok (tt, f s)

-- Zero means that the setting is not made.
pub record Identity : Type 0 where
  pub tenant_id : ℕ
  pub user_id : ℕ

unfoldable pub identity_valid : Identity → Bool
identity_valid i = not (i.tenant_id == 0) || not (i.user_id == 0)

-- Commit or roll back.
abbrev pub finish : {S A : Type 0} → S → Result (A × S) → Result A × S
finish s (ok (a, s')) = (ok a, s')
finish s (err e) = (err e, s)

unfoldable pub with_identity_tx : {S A : Type 0} → Identity → Tx S A → S → Result A × S
unfolding identity_valid
with_identity_tx id fn s = if not (identity_valid id) then (err no_scope, s) else finish s (fn s)
