-- ===== src/Db/Laws.antt =====
-- What a transaction leaves behind.
use tenant_api_platform.Prelude.{
  Bool, true, Result, ok, err, Err, ◌≡◌, refl, inl, inr, Bool-cases, arith,
}
use tenant_api_platform.Db
use tenant_api_platform.Db.{Tx, Identity, identity_valid, finish, with_identity_tx}

-- Inversion of a step of a transaction that went on.
pub continue-eq-ok :
    {S A B : Type 0} (r : Result (A × S)) (f : A → Tx S B) {b : B × S}
    → Db.continue r f ≡ ok b
    → (x : A × S) × (r ≡ ok x) × (f x.0 x.1 ≡ ok b)
continue-eq-ok (ok x) f h = (x, refl, h)
continue-eq-ok (err e) f h = cc

pub check-eq-ok :
    {S : Type 0} (b : Bool) (e : Err) (s : S) {x : Unit {0} × S}
    → Db.check b e s ≡ ok x
    → (b ≡ true) × (x ≡ (tt, s))
check-eq-ok b e s h = ground arith

module _ {S A : Type 0} where
  pub finish-eq-ok :
      (s : S) (r : Result (A × S)) {a : A} → (finish s r).0 ≡ ok a → r ≡ ok (a, (finish s r).1)
  finish-eq-ok s (ok (b, s')) h = ground arith
  finish-eq-ok s (err e) h = cc

  finish-eq-err :
      (s : S) (r : Result (A × S)) {e : Err} → (finish s r).0 ≡ err e → (finish s r).1 ≡ s
  finish-eq-err s (ok (b, s')) h = cc
  finish-eq-err s (err e) h = refl

  -- A transaction that returned was the closure's own success.
  pub with_identity_tx-eq-ok :
      (id : Identity) (fn : Tx S A) (s : S) {a : A}
      → (with_identity_tx id fn s).0 ≡ ok a
      → fn s ≡ ok (a, (with_identity_tx id fn s).1)
  unfolding with_identity_tx
  with_identity_tx-eq-ok id fn s h = elim (Bool-cases (identity_valid id)) [
    | inl e ↦ rw e (finish-eq-ok s (fn s) (rw e at h))
    | inr e ↦ cc (h, e)
  ]

  -- A transaction that failed left everything as it was.
  pub with_identity_tx-eq-err :
      (id : Identity) (fn : Tx S A) (s : S) {e : Err}
      → (with_identity_tx id fn s).0 ≡ err e
      → (with_identity_tx id fn s).1 ≡ s
  unfolding with_identity_tx
  with_identity_tx-eq-err id fn s h = elim (Bool-cases (identity_valid id)) [
    | inl e ↦ rw e (finish-eq-err s (fn s) (rw e at h))
    | inr e ↦ rw e refl
  ]
