-- ===== src/Authz/Keys/Laws.antt =====
-- Which scopes an API key may be given (internal/authz/keys.go).
use mathlib.Core.Path.{subst}
use tenant_api_platform.Prelude.{
  true, false, not, ok, List, [], ◌∷◌, ◌≡◌, ◌≢◌, refl, sym, ◌∙◌, ◌↔◌, ◌&&◌, Bool-no_conf, inl, inr,
  arith, All, eqb, eqb_iff, Bool-cases,
}
use tenant_api_platform.Authz.Roles.{Perm, Perm-discrete, tenant_manage, contains, all_perms}
use tenant_api_platform.Authz.Keys.{
  key_forbidden, validate_scopes, validate_key_scopes, key_grantable_perms,
}

-- No permission of the list occurs twice in it.
abbrev pub Distinct : List Perm → Type 0
Distinct [] = Unit
Distinct (p ∷ ps) = (contains p ps ≡ false) × Distinct ps

abbrev pub Grantable : Perm → Type 0
Grantable p = contains p key_grantable_perms ≡ true

abbrev Fresh : List Perm → List Perm → Type 0
Fresh seen ps = All (λ p. contains p seen ≡ false) ps

contains-grantable :
    (p : Perm) → contains p key_grantable_perms ≡ (contains p all_perms && not (key_forbidden p))
unfolding contains key_grantable_perms all_perms
contains-grantable tenant_manage = refl
contains-grantable p = refl

eqb_comm : (p q : Perm) → eqb Perm-discrete p q ≡ eqb Perm-discrete q p
eqb_comm p q = elim (Bool-cases (eqb Perm-discrete p q)) [
  | inl e ↦ e ∙ sym ((eqb_iff Perm-discrete q p).1 (sym ((eqb_iff Perm-discrete p q).0 e)))
  | inr e ↦ elim (Bool-cases (eqb Perm-discrete q p)) [
    | inl f ↦
        absurd
          (Bool-no_conf ((eqb_iff Perm-discrete p q).1 (sym ((eqb_iff Perm-discrete q p).0 f))) e)
    | inr f ↦ e ∙ sym f
  ]
]

module _ (p : Perm) (seen : List Perm) where
  Fresh-cons : (ps : List Perm) → Fresh (p ∷ seen) ps → (contains p ps ≡ false) × Fresh seen ps
  unfolding contains
  Fresh-cons [] h = (refl, tt)
  Fresh-cons (q ∷ ps) (h, hs) =
      let (now, later) = Fresh-cons ps hs in (ground (arith, eqb_comm p q), (ground arith, later))

  Fresh-uncons : (ps : List Perm) → contains p ps ≡ false → Fresh seen ps → Fresh (p ∷ seen) ps
  unfolding contains
  Fresh-uncons [] h f = tt
  Fresh-uncons (q ∷ ps) h (f, fs) =
      (ground (arith, eqb_comm p q), Fresh-uncons ps (ground arith) fs)

Fresh-nil : (ps : List Perm) → Fresh [] ps
unfolding contains
Fresh-nil [] = tt
Fresh-nil (p ∷ ps) = (refl, Fresh-nil ps)

-- The three tests that the first scope passes, and the check of the rest.
validate_scopes-cons :
    (seen : List Perm) (p : Perm) (scopes : List Perm)
    → validate_scopes seen (p ∷ scopes) ≡ ok tt
    → ((contains p all_perms && not (key_forbidden p)) ≡ true)
      × (contains p seen ≡ false)
      × (validate_scopes (p ∷ seen) scopes ≡ ok tt)
unfolding validate_scopes
validate_scopes-cons seen p scopes h = ground arith

validate_scopes_sound :
    (seen scopes : List Perm)
    → validate_scopes seen scopes ≡ ok tt
    → All Grantable scopes × Fresh seen scopes × Distinct scopes
validate_scopes_sound seen [] h = (tt, tt, tt)
validate_scopes_sound seen (p ∷ scopes) h =
    let (granted, new, rest) = validate_scopes-cons seen p scopes h in
    let (g, f, d) = validate_scopes_sound (p ∷ seen) scopes rest in
    let (apart, fresh) = Fresh-cons p seen scopes f in
    ((contains-grantable p ∙ granted, g), (new, fresh), (apart, d))

validate_scopes_complete :
    (seen scopes : List Perm)
    → All Grantable scopes
    → Fresh seen scopes
    → Distinct scopes
    → validate_scopes seen scopes ≡ ok tt
unfolding validate_scopes
validate_scopes_complete seen [] g f d = refl
validate_scopes_complete seen (p ∷ scopes) (g, gs) (f, fs) (d, ds) = ground (
  arith,
  contains-grantable p,
  validate_scopes_complete (p ∷ seen) scopes gs (Fresh-uncons p seen scopes d fs) ds,
)

-- A list of scopes is accepted exactly when it is not empty, each of its members may be granted to
-- a key, and none occurs twice.
pub validate_key_scopes_iff :
    (scopes : List Perm)
    → (validate_key_scopes scopes ≡ ok tt)
      ↔ ((scopes ≢ []) × All Grantable scopes × Distinct scopes)
unfolding validate_key_scopes
validate_key_scopes_iff [] = (λ h. cc, λ h. absurd (h.0 refl))
validate_key_scopes_iff (p ∷ scopes) = (
  λ h. let (g, f, d) = validate_scopes_sound [] (p ∷ scopes) h in (λ e. cc, g, d),
  λ h. validate_scopes_complete [] (p ∷ scopes) h.1 (Fresh-nil (p ∷ scopes)) h.2,
)

contains-grantable-forbidden :
    (p : Perm) → key_forbidden p ≡ true → contains p key_grantable_perms ≡ false
contains-grantable-forbidden p h = ground (arith, contains-grantable p)

-- A forbidden permission is in no list of scopes that was accepted.
pub contains-forbidden :
    (scopes : List Perm) (p : Perm)
    → All Grantable scopes
    → key_forbidden p ≡ true
    → contains p scopes ≡ false
unfolding contains
contains-forbidden [] p g h = refl
contains-forbidden (q ∷ scopes) p (g, gs) h = elim (Bool-cases (eqb Perm-discrete p q)) [
  | inl e ↦
      let same : q ≡ p = sym ((eqb_iff Perm-discrete p q).0 e) in
      cc (subst Grantable same g, contains-grantable-forbidden p h)
  | inr e ↦ rw e (contains-forbidden scopes p gs h)
]
