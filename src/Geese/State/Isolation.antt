-- ===== src/Geese/State/Isolation.antt =====
-- Operations of one tenant leave the rows of every other tenant alone.
use template_worker.Prelude.{
  ℕ, ◌≡◌, ◌≢◌, ◌∙◌, refl, sym, true, false, String, Option, List, arith, inl, inr, Option-cases,
  Bool-cases, eq_iff,
}
use template_worker.Prelude.Int.{ℤ}
use template_worker.Prelude.Rows.{select, any, select-upsert, select-delete, select-insert_new}
use template_worker.Worker.Tenant.{
  TenantId, IsValid, Snowflakes, tenant_id, tenant_type, from_parts-tenant_id,
}
use template_worker.Geese.TenantState.{owned_by}
use template_worker.Geese.State.Ops.{StateOp, NewGlobalKv, StateDbFlags}
use template_worker.Geese.State.Tables.{World, Db, StateExecResponse, Call}
use template_worker.Geese.State.Kv.{
  at_key, overwrite, new_kv_row, put_kv, drop_kv, kv_find_op, kv_get_op, kv_get_with_blob_op,
  kv_sign_url_op, kv_set_op, kv_delete_op,
}
use template_worker.Geese.State.Global.{
  own_global, at_global_key, new_global_row, global_kv_find_op, global_kv_get_op,
  global_kv_get_data_op, global_kv_create_op, global_kv_delete_op, insert_global, delete_global,
}
use template_worker.Geese.State.Events.{
  state_of, subscribes, new_state_row, new_event_row, subscribe_event_op, unsubscribe_event_op,
  put_subscription, drop_subscription,
}
use template_worker.Geese.State.Exec.{apply_op, do_op, call_at, Request}
use template_worker.Geese.State.Induction.{do_op_induction}

module _ (sf : Snowflakes) (a b : TenantId) (va : IsValid a) (vb : IsValid b) (a≢b : a ≢ b) where
  -- No owner is two tenants.
  pub owned_by-disjoint :
      (owner_id owner_type : String)
      → owned_by sf b owner_id owner_type ≡ true
      → owned_by sf a owner_id owner_type ≡ false
  owned_by-disjoint owner_id owner_type h = ground (
    arith,
    a≢b,
    from_parts-tenant_id sf a va,
    from_parts-tenant_id sf b vb,
    eq_iff owner_id (tenant_id sf a),
    eq_iff owner_id (tenant_id sf b),
    eq_iff owner_type (tenant_type a),
    eq_iff owner_type (tenant_type b),
  )

  owned_by_self : owned_by sf a (tenant_id sf a) (tenant_type a) ≡ true
  owned_by_self =
      ground
        (arith, eq_iff (tenant_id sf a) (tenant_id sf a), eq_iff (tenant_type a) (tenant_type a))

module _ {V J : Type 0} (w : World V J) where
  -- The rows of tenant `b` in all tables are the same in both databases.
  pub record SameRows (b : TenantId) (d d' : Db J) : Type 0 where
    pub kv :
        select (λ r. owned_by w.sf b r.owner_id r.owner_type) d'.tenant_kv
        ≡ select (λ r. owned_by w.sf b r.owner_id r.owner_type) d.tenant_kv
    pub globals :
        select (λ r. owned_by w.sf b r.owner_id r.owner_type) d'.global_kv
        ≡ select (λ r. owned_by w.sf b r.owner_id r.owner_type) d.global_kv
    pub states :
        select (λ r. owned_by w.sf b r.owner_id r.owner_type) d'.states.tenant_state
        ≡ select (λ r. owned_by w.sf b r.owner_id r.owner_type) d.states.tenant_state
    pub events :
        select (λ r. owned_by w.sf b r.owner_id r.owner_type) d'.states.tenant_state_events
        ≡ select (λ r. owned_by w.sf b r.owner_id r.owner_type) d.states.tenant_state_events

  SameRows-refl : (b : TenantId) (d : Db J) → SameRows b d d
  SameRows-refl b d = record { kv = refl; globals = refl; states = refl; events = refl }

  SameRows-trans : (b : TenantId) {d e f : Db J} → SameRows b d e → SameRows b e f → SameRows b d f
  SameRows-trans b h k = record {
    kv = k.kv ∙ h.kv;
    globals = k.globals ∙ h.globals;
    states = k.states ∙ h.states;
    events = k.events ∙ h.events;
  }

  module _ (a b : TenantId) (va : IsValid a) (vb : IsValid b) (a≢b : a ≢ b) where
    apart :
        (owner_id owner_type : String)
        → owned_by w.sf b owner_id owner_type ≡ true
        → owned_by w.sf a owner_id owner_type ≡ false
    apart = owned_by-disjoint w.sf a b va vb a≢b

    apart' :
        (owner_id owner_type : String)
        → owned_by w.sf a owner_id owner_type ≡ true
        → owned_by w.sf b owner_id owner_type ≡ false
    apart' = owned_by-disjoint w.sf b a vb va (λ e. a≢b (sym e))

    own_row : owned_by w.sf b (tenant_id w.sf a) (tenant_type a) ≡ false
    own_row = apart' (tenant_id w.sf a) (tenant_type a) (owned_by_self w.sf a b va vb a≢b)

    module _ (c : Call) where
      abbrev own_call : Call
      own_call = record c { tid = a }

      put_kv-SameRows :
          (key scope : String) (value : J) (blob : Option (List ℕ)) (db : Db J)
          → SameRows b db (put_kv w own_call key scope value blob db)
      unfolding put_kv at_key
      put_kv-SameRows key scope value blob db = record {
        kv =
            select-upsert (λ r. owned_by w.sf b r.owner_id r.owner_type) (at_key w a key scope)
              (overwrite w own_call value blob) (new_kv_row w own_call key scope value blob)
              (λ r h. ground (arith, apart r.owner_id r.owner_type h))
              (λ r h. apart' r.owner_id r.owner_type (ground arith)) own_row db.tenant_kv;
        globals = refl;
        states = refl;
        events = refl;
      }

      drop_kv-SameRows :
          (key scope : String) (db : Db J) → SameRows b db (drop_kv w own_call key scope db)
      unfolding drop_kv at_key
      drop_kv-SameRows key scope db = record {
        kv =
            select-delete (λ r. owned_by w.sf b r.owner_id r.owner_type) (at_key w a key scope)
              (λ r h. ground (arith, apart r.owner_id r.owner_type h)) db.tenant_kv;
        globals = refl;
        states = refl;
        events = refl;
      }

      put_subscription-SameRows :
          (event system : String) (db : Db J) → SameRows b db (put_subscription w a event system db)
      unfolding put_subscription
      put_subscription-SameRows event system db = record {
        kv = refl;
        globals = refl;
        states =
            select-insert_new (λ r. owned_by w.sf b r.owner_id r.owner_type) (state_of w a)
              (new_state_row w a) own_row db.states.tenant_state;
        events =
            select-insert_new (λ r. owned_by w.sf b r.owner_id r.owner_type)
              (subscribes w a event system) (new_event_row w a event system) own_row
              db.states.tenant_state_events;
      }

      drop_subscription-SameRows :
          (event system : String) (db : Db J)
          → SameRows b db (drop_subscription w a event system db)
      unfolding drop_subscription subscribes
      drop_subscription-SameRows event system db = record {
        kv = refl;
        globals = refl;
        states = refl;
        events =
            select-delete (λ r. owned_by w.sf b r.owner_id r.owner_type)
              (subscribes w a event system) (λ r h. ground (arith, apart r.owner_id r.owner_type h))
              db.states.tenant_state_events;
      }

      insert_global-SameRows :
          (n : NewGlobalKv V) (metadata value : J) (db : Db J) (resp : StateExecResponse V)
          → SameRows b db (insert_global w own_call n metadata value db resp).0
      unfolding insert_global
      insert_global-SameRows n metadata value db resp =
          elim (Bool-cases (any (at_global_key w n.key n.version n.scope) db.global_kv)) [
            | inl there ↦ rw (there, insert_global) (SameRows-refl b db)
            | inr new ↦
                rw (new, insert_global)
                  (record {
                    kv = refl;
                    globals =
                        select-insert_new (λ r. owned_by w.sf b r.owner_id r.owner_type)
                          (at_global_key w n.key n.version n.scope)
                          (new_global_row w own_call n metadata value) own_row db.global_kv;
                    states = refl;
                    events = refl;
                  })
          ]

      delete_global-SameRows :
          (key : String) (version : ℤ) (scope : String) (db : Db J) (resp : StateExecResponse V)
          → SameRows b db (delete_global w own_call key version scope db resp).0
      unfolding delete_global
      delete_global-SameRows key version scope db resp =
          elim (Bool-cases (any (own_global w own_call key version scope) db.global_kv)) [
            | inr none_there ↦ rw (none_there, delete_global) (SameRows-refl b db)
            | inl there ↦
                rw (there, delete_global)
                  (record {
                    kv = refl;
                    globals =
                        select-delete (λ r. owned_by w.sf b r.owner_id r.owner_type)
                          (own_global w own_call key version scope)
                          (λ r h. ground (arith, apart r.owner_id r.owner_type h)) db.global_kv;
                    states = refl;
                    events = refl;
                  })
          ]

      apply_op-SameRows :
          (op : StateOp V) (db : Db J) (resp : StateExecResponse V)
          → SameRows b db (apply_op w own_call op db resp).0
      unfolding apply_op kv_find_op kv_get_op kv_get_with_blob_op kv_sign_url_op kv_set_op
          kv_delete_op global_kv_find_op global_kv_get_op global_kv_get_data_op global_kv_create_op
          global_kv_delete_op subscribe_event_op unsubscribe_event_op
      apply_op-SameRows (StateOp.kv_set key scope value blob) db resp =
          elim (Option-cases (w.to_json value)) [
            | inl q ↦ ground (arith, q)
            | inr (j, q) ↦ ground (arith, q, put_kv-SameRows key scope j blob db)
          ]
      apply_op-SameRows (StateOp.kv_delete key scope) db resp =
          ground (arith, drop_kv-SameRows key scope db)
      apply_op-SameRows (StateOp.subscribe_event event system) db resp =
          ground (arith, put_subscription-SameRows event system db)
      apply_op-SameRows (StateOp.unsubscribe_event event system) db resp =
          ground (arith, drop_subscription-SameRows event system db)
      apply_op-SameRows (StateOp.global_kv_delete key version scope) db resp =
          ground (arith, delete_global-SameRows key version scope db resp)
      apply_op-SameRows (StateOp.global_kv_create n) db resp =
          elim (Option-cases (w.to_json n.public_metadata)) [
            | inl q ↦ ground (arith, q)
            | inr (m, q) ↦ elim (Option-cases (w.to_json n.value)) [
              | inl q' ↦ ground (arith, q, q')
              | inr (j, q') ↦ ground (arith, q, q', insert_global-SameRows n m j db resp)
            ]
          ]
      apply_op-SameRows _ db resp = ground arith

    -- Operations of one valid tenant leave every row of another valid tenant, in all tables, as it was and add none.
    pub do_op-SameRows :
        (ops : List (StateOp V)) (flags : StateDbFlags) (rq : Request) (db : Db J)
        → SameRows b db (do_op w a ops flags rq db).0
    do_op-SameRows ops flags rq db =
        do_op_induction w a flags rq (SameRows b db)
          (λ i op d resp h.
            SameRows-trans b h (apply_op-SameRows (call_at w a flags rq i) op d resp))
          ops db (SameRows-refl b db)
