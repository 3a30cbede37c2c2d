-- ===== src/Geese/State/Subscriptions/Examples.antt =====
-- A subscription on small tables.
use template_worker.Prelude.{ℕ, ◌≡◌, refl, true, false, some, ok, List, [], ◌∷◌, string_eq}
use template_worker.Prelude.Rows.{any}
use template_worker.Prelude.Dict.{contains_key}
use template_worker.Worker.Tenant.{user, tenant_type, tenant_id}
use template_worker.Worker.Tenant.Examples.{unary}
use template_worker.Geese.TenantState.{TenantState, is_default_event, get_tenant_state_for}
use template_worker.Geese.State.Ops.{StateOp, no_flags, alters_tenant_state}
use template_worker.Geese.State.Tables.{StateExecResponse}
use template_worker.Geese.State.Events.{subscribes, subscribe_event_op, put_subscription}
use template_worker.Geese.State.Exec.{apply_op, apply_ops, is_fastpath, do_op}
use template_worker.Geese.State.Changes.{keeps_key, has_state, has_owners}
use template_worker.Geese.State.Flag.{do_op-Step}
use template_worker.Geese.State.Subscriptions.{subscribe_event-registers}
use template_worker.Geese.State.Examples.{small_world, small_db, quiet}

abbrev subscription : List (StateOp ℕ)
subscription = StateOp.subscribe_event "GUILD" "x" ∷ []

abbrev subscribed : StateExecResponse ℕ
subscribed = record {
  results = [];
  tenant_state_changed = true;
  new_tenant_state =
      get_tenant_state_for unary (user 2)
        (put_subscription small_world (user 2) "GUILD" "x" small_db).states;
}

subscribes_now : (do_op small_world (user 2) subscription no_flags quiet small_db).1 ≡ ok subscribed
unfolding do_op is_fastpath apply_ops apply_op subscribe_event_op subscribes any alters_tenant_state
    is_default_event tenant_id tenant_type
subscribes_now = refl

new_event :
    any (subscribes small_world (user 2) "GUILD" "x") small_db.states.tenant_state_events ≡ false
unfolding any subscribes tenant_id tenant_type
new_event = refl

subscribe_event-registers_example :
    (st : TenantState) × (subscribed.new_tenant_state ≡ some st)
    × (contains_key "GUILD" st.events ≡ true)
subscribe_event-registers_example =
    subscribe_event-registers small_world (user 2) "GUILD" "x" no_flags quiet small_db subscribed
      new_event subscribes_now

key_kept : keeps_key small_db.states ≡ true
unfolding has_owners any
key_kept = refl

do_op-Step_example :
    (keeps_key (do_op small_world (user 2) subscription no_flags quiet small_db).0.states ≡ true)
    × (has_state small_world
          (user 2)
          (do_op small_world (user 2) subscription no_flags quiet small_db).0.states
        ≡ true)
do_op-Step_example =
    do_op-Step small_world (user 2) no_flags quiet subscription small_db subscribed key_kept
      subscribes_now
