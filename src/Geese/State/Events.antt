-- ===== src/Geese/State/Events.antt =====
-- The event subscriptions of `apply_op` in src/geese/state.rs.
use template_worker.Prelude.{◌&&◌, Bool, true, String, ok, str_beq, if◌then◌else◌}
use template_worker.Prelude.Int.{pos}
use template_worker.Prelude.Rows.{any, insert_new, delete}
use template_worker.Worker.Tenant.{TenantId, tenant_id, tenant_type}
use template_worker.Geese.TenantState.{TenantStatePartial, EventRow, owned_by, is_default_event}
use template_worker.Geese.State.Tables.{
  World, Db, StateExecResponse, Call, Outcome, refuse, statement,
}

module _ {V J : Type 0} (w : World V J) where
  abbrev pub state_of : TenantId → TenantStatePartial → Bool
  state_of tid p = owned_by w.sf tid p.owner_id p.owner_type

  unfoldable pub subscribes : TenantId → String → String → EventRow → Bool
  subscribes tid event system r =
      owned_by w.sf tid r.owner_id r.owner_type && str_beq r.event event && str_beq r.system system

  abbrev pub new_state_row : TenantId → TenantStatePartial
  new_state_row tid = record {
    modflags = pos 0;
    owner_id = tenant_id w.sf tid;
    owner_type = tenant_type tid;
  }

  abbrev pub new_event_row : TenantId → String → String → EventRow
  new_event_row tid event system = record {
    owner_id = tenant_id w.sf tid;
    owner_type = tenant_type tid;
    event = event;
    system = system;
  }

  -- The state row is ensured and the subscription inserted, each if it is not there.
  unfoldable pub put_subscription : TenantId → String → String → Db J → Db J
  put_subscription tid event system db = record db {
    states = record {
      tenant_state = insert_new (state_of tid) (new_state_row tid) db.states.tenant_state;
      tenant_state_events =
          insert_new (subscribes tid event system) (new_event_row tid event system)
            db.states.tenant_state_events;
    };
  }

  unfoldable pub subscribe_event_op :
      Call → String → String → Db J → StateExecResponse V → Outcome V J
  subscribe_event_op c event system db resp =
      if is_default_event event
      then refuse db "Cannot subscribe to default event"
      else statement c.fault db (
        put_subscription c.tid event system db,
        (if any (subscribes c.tid event system) db.states.tenant_state_events
            then ok resp
            else ok (record resp { tenant_state_changed = true })),
      )

  unfoldable pub drop_subscription : TenantId → String → String → Db J → Db J
  drop_subscription tid event system db = record db {
    states = record db.states {
      tenant_state_events = delete (subscribes tid event system) db.states.tenant_state_events;
    };
  }

  unfoldable pub unsubscribe_event_op :
      Call → String → String → Db J → StateExecResponse V → Outcome V J
  unsubscribe_event_op c event system db resp =
      if is_default_event event
      then refuse db "Cannot subscribe to default event"
      else statement c.fault db (
        drop_subscription c.tid event system db,
        (if any (subscribes c.tid event system) db.states.tenant_state_events
            then ok (record resp { tenant_state_changed = true })
            else ok resp),
      )
