-- ===== src/Geese/State/Subscriptions.antt =====
-- What a subscription does to the state of its tenant.
pub mod Examples
use template_worker.Prelude.{
  ◌≡◌, ◌∙◌, refl, true, false, ◌&&◌, String, none, some, ok, [], ◌∷◌, arith, str_beq, eq_iff,
  string_eq,
}
use template_worker.Prelude.Dict.{contains_key}
use template_worker.Prelude.Rows.{any-weaken, any-insert_new, select, any, insert_new, first-some}
use template_worker.Worker.Tenant.{TenantId, tenant_id, tenant_type}
use template_worker.Geese.TenantState.{
  TenantState, EventRow, owned_by, get_tenant_state_for, into_tenant_state_single, group_by_event,
}
use template_worker.Geese.TenantState.Laws.{contains_key-get_tenant_state_for}
use template_worker.Geese.State.Ops.{StateOp, StateDbFlags}
use template_worker.Geese.State.Tables.{World, Db, StateExecResponse}
use template_worker.Geese.State.Events.{
  state_of, subscribes, new_event_row, new_state_row, put_subscription, subscribe_event_op,
}
use template_worker.Geese.State.Exec.{apply_op, apply_ops, do_op, Request}

module _ {V J : Type 0} (w : World V J) (tid : TenantId) (event system : String) where
  own : owned_by w.sf tid (tenant_id w.sf tid) (tenant_type tid) ≡ true
  own = ground (
    arith,
    eq_iff (tenant_id w.sf tid) (tenant_id w.sf tid),
    eq_iff (tenant_type tid) (tenant_type tid),
  )

  subscribes_own : subscribes w tid event system (new_event_row w tid event system) ≡ true
  unfolding subscribes
  subscribes_own = ground (arith, own, eq_iff event event, eq_iff system system)

  subscribes-event :
      (r : EventRow)
      → subscribes w tid event system r ≡ true
      → (owned_by w.sf tid r.owner_id r.owner_type && str_beq r.event event) ≡ true
  unfolding subscribes
  subscribes-event r h = ground arith

  put_subscription-subscribes :
      (db : Db J)
      → any
          (subscribes w tid event system)
          (put_subscription w tid event system db).states.tenant_state_events
        ≡ true
  unfolding put_subscription
  put_subscription-subscribes db =
      any-insert_new (subscribes w tid event system) (new_event_row w tid event system)
        db.states.tenant_state_events subscribes_own

  -- The tenant has a state row afterwards.
  pub put_subscription-state :
      (db : Db J)
      → any (state_of w tid) (put_subscription w tid event system db).states.tenant_state ≡ true
  unfolding put_subscription
  put_subscription-state db =
      any-insert_new (state_of w tid) (new_state_row w tid) db.states.tenant_state own

  pub state_found :
      (db : Db J)
      → any (state_of w tid) db.states.tenant_state ≡ true
      → (st : TenantState) × (get_tenant_state_for w.sf tid db.states ≡ some st)
  unfolding get_tenant_state_for
  state_found db h =
      let (r, q) = first-some (state_of w tid) db.states.tenant_state h in
      (
        into_tenant_state_single r (
            group_by_event (
              select (λ e. owned_by w.sf tid e.owner_id e.owner_type)
                db.states.tenant_state_events)),
        rw (q, get_tenant_state_for) refl,
      )

  module _ (flags : StateDbFlags) (rq : Request) (db : Db J) (resp : StateExecResponse V) where
    subscribed_outcome :
        any (subscribes w tid event system) db.states.tenant_state_events ≡ false
        → (do_op w tid (StateOp.subscribe_event event system ∷ []) flags rq db).1 ≡ ok resp
        → resp.new_tenant_state
          ≡ get_tenant_state_for w.sf tid (put_subscription w tid event system db).states
    unfolding do_op apply_ops apply_op subscribe_event_op
    subscribed_outcome new h = ground arith

    -- A new subscription that succeeds answers the tenant's new state, which has the event.
    pub subscribe_event-registers :
        any (subscribes w tid event system) db.states.tenant_state_events ≡ false
        → (do_op w tid (StateOp.subscribe_event event system ∷ []) flags rq db).1 ≡ ok resp
        → (st : TenantState) × (resp.new_tenant_state ≡ some st)
          × (contains_key event st.events ≡ true)
    subscribe_event-registers new h =
        let db' = put_subscription w tid event system db in
        let (st, found) = state_found db' (put_subscription-state db) in
        (
          st,
          subscribed_outcome new h ∙ found,
          contains_key-get_tenant_state_for w.sf tid db'.states st event found
              ∙ any-weaken (subscribes w tid event system)
                  (λ r. owned_by w.sf tid r.owner_id r.owner_type && str_beq r.event event)
                  subscribes-event db'.states.tenant_state_events (put_subscription-subscribes db),
        )

    -- A subscription that is there already changes no subscription and answers no new state.
    pub subscribe_event-again :
        any (subscribes w tid event system) db.states.tenant_state_events ≡ true
        → (do_op w tid (StateOp.subscribe_event event system ∷ []) flags rq db).1 ≡ ok resp
        → (resp.new_tenant_state ≡ none)
          × ((do_op w tid
                (StateOp.subscribe_event event system ∷ [])
                flags
                rq
                db).0.states.tenant_state_events
              ≡ db.states.tenant_state_events)
    unfolding do_op apply_ops apply_op subscribe_event_op put_subscription insert_new
    subscribe_event-again there h = ground arith
