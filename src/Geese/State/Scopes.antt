-- ===== src/Geese/State/Scopes.antt =====
-- The internal scopes, those that start with '#', against operations that tenants ask for.
use template_worker.Prelude.{
  ℕ, ◌≡◌, ◌∙◌, refl, ap, Bool, true, false, ◌&&◌, not, String, Option, List, arith, inl, inr,
  Option-cases, str_beq, eq_iff,
}
use template_worker.Prelude.Rows.{select, select-upsert, select-delete}
use template_worker.Worker.Tenant.{TenantId}
use template_worker.Geese.State.Ops.{
  StateOp, can_set_internal_scope, can_delete_internal_scope, no_flags,
}
use template_worker.Geese.State.Tables.{World, KvRow, Db, StateExecResponse, Call}
use template_worker.Geese.State.Kv.{
  is_internal, at_key, overwrite, new_kv_row, put_kv, drop_kv, kv_find_op, kv_get_op,
  kv_get_with_blob_op, kv_sign_url_op, kv_set_op, kv_delete_op,
}
use template_worker.Geese.State.Global.{
  global_kv_find_op, global_kv_get_op, global_kv_get_data_op, global_kv_create_op,
  global_kv_delete_op, insert_global, delete_global,
}
use template_worker.Geese.State.Events.{
  subscribe_event_op, unsubscribe_event_op, put_subscription, drop_subscription,
}
use template_worker.Geese.State.Exec.{apply_op, do_op, call_at, Request}
use template_worker.Geese.State.Induction.{do_op_induction}

-- The rows that tenants may not touch: those of the internal scopes other than the error log.
abbrev pub is_protected : {J : Type 0} → KvRow J → Bool
is_protected r = is_internal r.scope && not (str_beq r.scope "#err")

module _ {V J : Type 0} (w : World V J) where
  at_key-scope :
      (tid : TenantId) (key scope : String) (r : KvRow J)
      → at_key w tid key scope r ≡ true
      → r.scope ≡ scope
  unfolding at_key
  at_key-scope tid key scope r h = ground (arith, eq_iff r.scope scope)

  abbrev protected_scope : String → Bool
  protected_scope scope = is_internal scope && not (str_beq scope "#err")

  at_key-protected :
      (tid : TenantId) (key scope : String) (r : KvRow J)
      → at_key w tid key scope r ≡ true
      → is_protected r ≡ protected_scope scope
  at_key-protected tid key scope r h = ap protected_scope (at_key-scope tid key scope r h)

  protected-at_key :
      (tid : TenantId) (key scope : String)
      → protected_scope scope ≡ false
      → (r : KvRow J) → is_protected r ≡ true
      → at_key w tid key scope r ≡ false
  protected-at_key tid key scope u r h = ground (arith, at_key-protected tid key scope r)

  select-put_kv :
      (c : Call) (key scope : String) (value : J) (blob : Option (List ℕ)) (db : Db J)
      → protected_scope scope ≡ false
      → select is_protected (put_kv w c key scope value blob db).tenant_kv
        ≡ select is_protected db.tenant_kv
  unfolding put_kv
  select-put_kv c key scope value blob db u =
      select-upsert is_protected (at_key w c.tid key scope) (overwrite w c value blob)
        (new_kv_row w c key scope value blob) (protected-at_key c.tid key scope u)
        (λ r h. at_key-protected c.tid key scope r h ∙ u) u db.tenant_kv

  select-drop_kv :
      (c : Call) (key scope : String) (db : Db J)
      → protected_scope scope ≡ false
      → select is_protected (drop_kv w c key scope db).tenant_kv ≡ select is_protected db.tenant_kv
  unfolding drop_kv
  select-drop_kv c key scope db u =
      select-delete is_protected (at_key w c.tid key scope) (protected-at_key c.tid key scope u)
        db.tenant_kv

  module _ (tid : TenantId) (rq : Request) where
    apply_op-protected :
        (i : ℕ) (op : StateOp V) (db : Db J) (resp : StateExecResponse V)
        → select is_protected (apply_op w (call_at w tid no_flags rq i) op db resp).0.tenant_kv
          ≡ select is_protected db.tenant_kv
    unfolding apply_op kv_find_op kv_get_op kv_get_with_blob_op kv_sign_url_op kv_set_op
        kv_delete_op global_kv_find_op global_kv_get_op global_kv_get_data_op global_kv_create_op
        global_kv_delete_op insert_global delete_global subscribe_event_op unsubscribe_event_op
        put_subscription drop_subscription can_set_internal_scope can_delete_internal_scope
    apply_op-protected i (StateOp.kv_set key scope value blob) db resp =
        elim (Option-cases (w.to_json value)) [
          | inl q ↦ ground (arith, q)
          | inr (j, q) ↦
              ground (arith, q, select-put_kv (call_at w tid no_flags rq i) key scope j blob db)
        ]
    apply_op-protected i (StateOp.kv_delete key scope) db resp =
        ground (arith, select-drop_kv (call_at w tid no_flags rq i) key scope db)
    apply_op-protected i _ db resp = ground arith

    -- Operations that a tenant asks for, whatever they are, leave every protected row of every tenant as it was and add none.
    pub do_op-protected :
        (ops : List (StateOp V)) (db : Db J)
        → select is_protected (do_op w tid ops no_flags rq db).0.tenant_kv
          ≡ select is_protected db.tenant_kv
    do_op-protected ops db =
        do_op_induction w tid no_flags rq
          (λ d. select is_protected d.tenant_kv ≡ select is_protected db.tenant_kv)
          (λ i op d resp h. apply_op-protected i op d resp ∙ h) ops db refl
