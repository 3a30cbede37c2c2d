-- ===== src/Geese/State/Changes.antt =====
-- The flag `tenant_state_changed` against the tables. The table of events has a foreign key to the
-- table of tenant states (src/migrations/tenantstate_add_eventrefs.rs): `has_owners`.
use template_worker.Prelude.{
  ℕ, ◌≡◌, ◌⊎◌, refl, Bool, true, false, ◌&&◌, String, ok, List, [], ◌∷◌, ◌++◌, arith, inl, inr,
  Bool-cases, str_beq, eq_iff,
}
use template_worker.Geese.State.Subscriptions.{put_subscription-state}
use template_worker.Prelude.Rows.{any-weaken, delete_none, any, delete, insert_new, any-append}
use template_worker.Worker.Tenant.{TenantId, tenant_id, tenant_type}
use template_worker.Geese.TenantState.{TenantStatePartial, EventRow, StateTables}
use template_worker.Geese.State.Ops.{StateOp, StateDbFlags, alters_tenant_state}
use template_worker.Geese.State.Tables.{World, Db, StateExecResponse, Call}
use template_worker.Geese.State.Kv.{
  kv_find_op, kv_get_op, kv_get_with_blob_op, kv_sign_url_op, kv_set_op, kv_delete_op, put_kv,
  drop_kv,
}
use template_worker.Geese.State.Global.{
  global_kv_find_op, global_kv_get_op, global_kv_get_data_op, global_kv_create_op,
  global_kv_delete_op, insert_global, delete_global,
}
use template_worker.Geese.State.Events.{
  state_of, subscribes, new_event_row, new_state_row, put_subscription, subscribe_event_op,
  drop_subscription, unsubscribe_event_op,
}
use template_worker.Geese.State.Exec.{apply_op, call_at, Request}
use template_worker.Geese.State.Atomicity.{apply_op-SameState}

abbrev pub owns : EventRow → TenantStatePartial → Bool
owns r p = str_beq p.owner_id r.owner_id && str_beq p.owner_type r.owner_type

-- Every event row belongs to a tenant with a state row.
unfoldable pub has_owners : List TenantStatePartial → List EventRow → Bool
unfolding any
has_owners ps [] = true
has_owners ps (r ∷ rs) = any (owns r) ps && has_owners ps rs

has_owners-append :
    (ps qs : List TenantStatePartial) (rs : List EventRow)
    → has_owners ps rs ≡ true
    → has_owners (ps ++ qs) rs ≡ true
unfolding has_owners
has_owners-append ps qs [] h = refl
has_owners-append ps qs (r ∷ rs) h =
    ground (arith, has_owners-append ps qs rs, any-append (owns r) ps qs)

has_owners-snoc :
    (ps : List TenantStatePartial) (rs : List EventRow) (r : EventRow)
    → has_owners ps rs ≡ true
    → any (owns r) ps ≡ true
    → has_owners ps (rs ++ r ∷ []) ≡ true
unfolding has_owners
has_owners-snoc ps [] r h k = ground arith
has_owners-snoc ps (x ∷ rs) r h k = ground (arith, has_owners-snoc ps rs r)

has_owners-delete :
    (ps : List TenantStatePartial) (q : EventRow → Bool) (rs : List EventRow)
    → has_owners ps rs ≡ true
    → has_owners ps (delete q rs) ≡ true
unfolding has_owners delete
has_owners-delete ps q [] h = refl
has_owners-delete ps q (r ∷ rs) h = ground (arith, has_owners-delete ps q rs)

abbrev pub keeps_key : StateTables → Bool
keeps_key t = has_owners t.tenant_state t.tenant_state_events

module _ {V J : Type 0} (w : World V J) (tid : TenantId) where
  abbrev pub has_state : StateTables → Bool
  has_state t = any (state_of w tid) t.tenant_state

  owns-state_of :
      (event system : String) (r : EventRow)
      → subscribes w tid event system r ≡ true
      → (p : TenantStatePartial) → owns r p ≡ true
      → state_of w tid p ≡ true
  unfolding subscribes
  owns-state_of event system r h p k = ground (
    arith,
    eq_iff r.owner_id (tenant_id w.sf tid),
    eq_iff r.owner_type (tenant_type tid),
    eq_iff p.owner_id r.owner_id,
    eq_iff p.owner_type r.owner_type,
    eq_iff p.owner_id (tenant_id w.sf tid),
    eq_iff p.owner_type (tenant_type tid),
  )

  -- A tenant with a subscription has a state row.
  subscribed-has_state :
      (event system : String) (ps : List TenantStatePartial) (rs : List EventRow)
      → any (subscribes w tid event system) rs ≡ true
      → has_owners ps rs ≡ true
      → any (state_of w tid) ps ≡ true
  unfolding any has_owners
  subscribed-has_state event system ps [] h k = absurd (ground arith)
  subscribed-has_state event system ps (r ∷ rs) h k =
      elim (Bool-cases (subscribes w tid event system r)) [
        | inl own ↦
            any-weaken (owns r) (state_of w tid) (owns-state_of event system r own) ps
              (ground arith)
        | inr other ↦ subscribed-has_state event system ps rs (ground arith) (ground arith)
      ]

  subscription_there :
      (event system : String) (db : Db J)
      → any (subscribes w tid event system) db.states.tenant_state_events ≡ true
      → keeps_key db.states ≡ true
      → (put_subscription w tid event system db).states ≡ db.states
  unfolding put_subscription insert_new
  subscription_there event system db there key = ground (
    arith,
    there,
    subscribed-has_state event system db.states.tenant_state db.states.tenant_state_events there
        key,
  )

  state_row_added :
      (db : Db J)
      → keeps_key db.states ≡ true
      → has_owners
          (insert_new (state_of w tid) (new_state_row w tid) db.states.tenant_state)
          db.states.tenant_state_events
        ≡ true
  unfolding insert_new
  state_row_added db key = ground (
    arith,
    has_owners-append db.states.tenant_state (new_state_row w tid ∷ [])
        db.states.tenant_state_events key,
  )

  subscription_added :
      (event system : String) (db : Db J)
      → keeps_key db.states ≡ true
      → any (subscribes w tid event system) db.states.tenant_state_events ≡ false
      → keeps_key (put_subscription w tid event system db).states ≡ true
  unfolding put_subscription insert_new has_owners
  subscription_added event system db key new =
      rw (new, insert_new)
        (has_owners-snoc (insert_new (state_of w tid) (new_state_row w tid) db.states.tenant_state)
          db.states.tenant_state_events (new_event_row w tid event system) (state_row_added db key)
          (put_subscription-state w tid event system db))

  put_subscription-keeps_key :
      (event system : String) (db : Db J)
      → keeps_key db.states ≡ true
      → keeps_key (put_subscription w tid event system db).states ≡ true
  put_subscription-keeps_key event system db key =
      elim (Bool-cases (any (subscribes w tid event system) db.states.tenant_state_events)) [
        | inl there ↦ rw (subscription_there event system db there key) key
        | inr new ↦ subscription_added event system db key new
      ]

  -- What a step does to the tables of states and to the flag
  abbrev pub Step : StateTables → Bool → StateTables → Bool → Type 0
  Step old was new now =
      (keeps_key new ≡ true)
      × (((now ≡ was) × (new ≡ old)) ⊎ ((now ≡ true) × (has_state new ≡ true)))

  module _ (flags : StateDbFlags) (rq : Request) (i : ℕ) where
    abbrev call : Call
    call = call_at w tid flags rq i

    other-states :
        (op : StateOp V) (db : Db J) (resp : StateExecResponse V)
        → alters_tenant_state op ≡ false
        → (apply_op w call op db resp).0.states ≡ db.states
    unfolding apply_op alters_tenant_state kv_find_op kv_get_op kv_get_with_blob_op kv_sign_url_op
        kv_set_op kv_delete_op put_kv drop_kv global_kv_find_op global_kv_get_op
        global_kv_get_data_op global_kv_create_op global_kv_delete_op insert_global delete_global
    other-states (StateOp.kv_find q s) db resp h = ground arith
    other-states _ db resp h = ground arith

    pub apply_op-Step :
        (op : StateOp V) (db : Db J) (resp resp' : StateExecResponse V)
        → keeps_key db.states ≡ true
        → (apply_op w call op db resp).1 ≡ ok resp'
        → Step db.states resp.tenant_state_changed
            (apply_op w call op db resp).0.states
            resp'.tenant_state_changed
    unfolding apply_op alters_tenant_state subscribe_event_op unsubscribe_event_op drop_subscription
    apply_op-Step (StateOp.subscribe_event event system) db resp resp' key h =
        elim (Bool-cases (any (subscribes w tid event system) db.states.tenant_state_events)) [
          | inl there ↦ (
            ground (arith, there, put_subscription-keeps_key event system db key),
            inl (
              ground (arith, there),
              ground (arith, there, subscription_there event system db there key),
            ),
          )
          | inr new ↦ (
            ground (arith, new, put_subscription-keeps_key event system db key),
            inr (
              ground (arith, new),
              ground (arith, new, put_subscription-state w tid event system db),
            ),
          )
        ]
    apply_op-Step (StateOp.unsubscribe_event event system) db resp resp' key h =
        elim (Bool-cases (any (subscribes w tid event system) db.states.tenant_state_events)) [
          | inl there ↦ (
            ground (
              arith,
              there,
              has_owners-delete db.states.tenant_state (subscribes w tid event system)
                  db.states.tenant_state_events key,
            ),
            inr (
              ground (arith, there),
              ground (
                arith,
                there,
                subscribed-has_state event system db.states.tenant_state
                    db.states.tenant_state_events there key,
              ),
            ),
          )
          | inr new ↦ (
            ground (
              arith,
              new,
              has_owners-delete db.states.tenant_state (subscribes w tid event system)
                  db.states.tenant_state_events key,
            ),
            inl (
              ground (arith, new),
              ground (
                arith,
                new,
                delete_none (subscribes w tid event system) db.states.tenant_state_events new,
              ),
            ),
          )
        ]
    apply_op-Step op db resp resp' key h = (
      rw (other-states op db resp refl) key,
      inl ((apply_op-SameState w call op db resp resp' refl h).0, other-states op db resp refl),
    )
