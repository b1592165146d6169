-- ===== src/Invoice/Store/Advance/Success.antt =====
-- What a Transition that succeeded has done (internal/invoice/store.go).
use tenant_api_platform.Prelude.{
  ℕ, true, ok, Option, some, [], ◌∷◌, ◌++◌, ◌≡◌, sym, ◌∙◌, ap, arith, inl, inr, Option-cases, find,
  update, eqb_iff, find-eq-some,
}
use tenant_api_platform.Prelude.Int64.{ℤ, pos, negsuc, eqb_ℤ}
use tenant_api_platform.Db.{with_identity_tx}
use tenant_api_platform.Db.Laws.{with_identity_tx-eq-ok}
use tenant_api_platform.Tenant.{Authorized, auth_valid, identity}
use tenant_api_platform.Audit.{ActorKind, actor_from_authorized}
use tenant_api_platform.Invoice.Lifecycle.{
  Status, Status-discrete, status_eq, Transition, can_transition, transition_to, transition_text,
}
use tenant_api_platform.Invoice.Tables.{Invoice, Loaded, Tables, has_key, invoice_ok}
use tenant_api_platform.Invoice.Store.Statements.{Env, Call}
use tenant_api_platform.Invoice.Store.Statements.Laws.{logged}
use tenant_api_platform.Invoice.Store.Create.{read_invoice}
use tenant_api_platform.Invoice.Store.Advance.{
  unchanged, advanced, transition_write, transition_tx, transition,
}
use tenant_api_platform.Invoice.Store.Advance.Laws.{Written, transition_write-Written}

-- A transition that was made: which row it was, and what became of the tables.
pub record Made (call : Call) (auth : Authorized) (id : ℕ) (tr : Transition) (expected : ℤ)
    (l : Loaded) (t t' : Tables) : Type 0 where
  pub caller : auth_valid auth ≡ true
  pub row : Invoice
  pub was : find (unchanged id auth.scope.id expected row.status) t.invoices ≡ some row
  pub named : row.id ≡ id
  pub own : row.tenant_id ≡ auth.scope.id
  pub version : pos row.version ≡ expected
  pub legal : can_transition row.status (transition_to tr) ≡ true
  pub result : l.invoice ≡ advanced call (transition_to tr) row
  pub valid : invoice_ok l.invoice ≡ true
  pub invoices :
      t'.invoices
      ≡ update
          (unchanged id auth.scope.id expected row.status)
          (advanced call (transition_to tr))
          t.invoices
  pub items : t'.items ≡ t.items
  pub counters : t'.counters ≡ t.counters
  pub actor : Option ℕ × ActorKind
  pub acts : actor_from_authorized auth ≡ ok actor
  pub logs :
      t'.events
      ≡ t.events
        ++ logged l.invoice (transition_text tr) (some row.status) (some (transition_to tr)) actor
          ∷ []

-- What the key and the compare-and-set say of a row.
key_parts :
    (id tenant_id : ℕ) (i : Invoice)
    → has_key id tenant_id i ≡ true
    → (i.id ≡ id) × (i.tenant_id ≡ tenant_id)
key_parts id tenant_id i h = ground arith

eqb_ℤ→eq : (n : ℕ) (a : ℤ) → eqb_ℤ (pos n) a ≡ true → pos n ≡ a
eqb_ℤ→eq n (pos m) h = ground arith
eqb_ℤ→eq n (negsuc m) h = ground arith

unchanged_parts :
    (id tenant_id : ℕ) (expected : ℤ) (status : Status) (i : Invoice)
    → unchanged id tenant_id expected status i ≡ true
    → (has_key id tenant_id i ≡ true)
      × (eqb_ℤ (pos i.version) expected ≡ true)
      × (status_eq i.status status ≡ true)
unchanged_parts id tenant_id expected status i h = ground arith

module _ (env : Env) (call : Call) (auth : Authorized) (id : ℕ) (tr : Transition) (expected : ℤ)
    (l : Loaded) (t : Tables) where
  -- The guards of the method.
  pub guards_passed :
      (transition env call auth id tr expected t).0 ≡ ok l
      → (auth_valid auth ≡ true)
        × (transition env call auth id tr expected t
            ≡ with_identity_tx (identity auth) (transition_tx env call auth id tr expected) t)
  unfolding transition
  guards_passed h = ground arith

  -- The row that was read, and the write that followed.
  pub transition_tx-eq-ok :
      (t' : Tables)
      → transition_tx env call auth id tr expected t ≡ ok (l, t')
      → (before : Invoice) × (find (has_key id auth.scope.id) t.invoices ≡ some before)
        × (can_transition before.status (transition_to tr) ≡ true)
        × (transition_write env call auth tr expected before t ≡ ok (l, t'))
  unfolding transition_tx read_invoice
  transition_tx-eq-ok t' h = elim (Option-cases (find (has_key id auth.scope.id) t.invoices)) [
    | inl missing ↦ absurd (ground arith)
    | inr (before, e) ↦ (before, e, ground arith, ground arith)
  ]

  assemble :
      (t' : Tables) (before : Invoice)
      → auth_valid auth ≡ true
      → has_key id auth.scope.id before ≡ true
      → can_transition before.status (transition_to tr) ≡ true
      → (w : Written env call auth tr expected before l t t')
      → unchanged before.id before.tenant_id expected before.status w.row.found ≡ true
      → Made call auth id tr expected l t t'
  unfolding Status-discrete
  assemble t' before valid key legal w same =
      let (own_id, own_tenant) = key_parts id auth.scope.id before key in
      let (k, v, st) =
        unchanged_parts before.id before.tenant_id expected before.status w.row.found same in
      let (found_id, found_tenant) = key_parts before.id before.tenant_id w.row.found k in
      let status : w.row.found.status ≡ before.status = (eqb_iff Status-discrete _ _).0 st in
      record {
        caller = valid;
        row = w.row.found;
        was = cc (w.row.was, own_id, own_tenant, status);
        named = found_id ∙ own_id;
        own = found_tenant ∙ own_tenant;
        version = eqb_ℤ→eq w.row.found.version expected v;
        legal = cc (legal, status);
        result = w.row.becomes;
        valid = cc (w.row.valid, w.row.becomes);
        invoices = cc (ap (λ x. x.invoices) w.row.tables, own_id, own_tenant, status);
        items = w.items;
        counters = w.counters;
        actor = w.actor;
        acts = w.acts;
        logs = cc (w.logs, status);
      }

  -- A transition that succeeded was asked for by a valid caller, named an invoice of the caller's own
  -- tenant that was in the table at the expected version and in a status that the transition may
  -- leave, and has advanced that row, the version by one and the money untouched, to one that satisfies the table's
  -- constraints; rows of another key, version or status, the lines and the counters are as they were,
  -- and one entry was added to the event log, with the caller as its actor.
  pub transition-Made :
      (transition env call auth id tr expected t).0 ≡ ok l
      → Made call auth id tr expected l t (transition env call auth id tr expected t).1
  transition-Made h =
      let (valid, same) = guards_passed h in
      let (before, there, legal, wrote) =
        transition_tx-eq-ok
          (with_identity_tx (identity auth) (transition_tx env call auth id tr expected) t).1
          (with_identity_tx-eq-ok (identity auth) (transition_tx env call auth id tr expected) t
            (ap (λ x. x.0) (sym same) ∙ h)) in
      let w = transition_write-Written env call auth tr expected before l t _ wrote in
      rw same (
        assemble _ before valid (find-eq-some (has_key id auth.scope.id) t.invoices before there)
          legal w (find-eq-some _ t.invoices w.row.found w.row.was))
