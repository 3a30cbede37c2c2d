-- ===== src/Worker/Thread/Examples.antt =====
-- Runs of the thread of a small worker.
use template_worker.Prelude.{ℕ, ◌≡◌, refl, true, false, [], ◌∷◌}
use template_worker.Worker.Tenant.{user}
use template_worker.Geese.TenantState.{TenantState}
use template_worker.Mesophyll.Examples.{small_channel}
use template_worker.Worker.Examples.{small_system, message_state, failing}
use template_worker.Worker.Thread.{
  update_tenant_state, drop_tenant, Thread, send, receive, Reaches, here, further, handle,
}
use template_worker.Worker.Thread.Laws.{are_unbanned, Reaches-are_unbanned}

abbrev state_data : TenantState → ℕ
state_data ts = 0

abbrev started : Thread ℕ ℕ ℕ ℕ ℕ
started = record { system = small_system; queue = []; tasks = []; replies = []; stopped = false }

abbrev sent : Thread ℕ ℕ ℕ ℕ ℕ
sent = record started { queue = update_tenant_state (user 2) message_state ∷ [] }

abbrev updated_thread : Thread ℕ ℕ ℕ ℕ ℕ
updated_thread =
    handle small_channel failing state_data (update_tenant_state (user 2) message_state) started

updates : Reaches small_channel failing state_data started updated_thread
updates =
    further (further (here started) (send started (update_tenant_state (user 2) message_state)))
      (receive sent (update_tenant_state (user 2) message_state) [] refl refl)

nothing_waits : are_unbanned started.tasks ≡ true
unfolding are_unbanned
nothing_waits = refl

Reaches-are_unbanned_example : are_unbanned updated_thread.tasks ≡ true
Reaches-are_unbanned_example =
    Reaches-are_unbanned small_channel failing state_data started updated_thread updates
      nothing_waits

abbrev stopped_thread : Thread ℕ ℕ ℕ ℕ ℕ
stopped_thread = record started { stopped = true }

abbrev asked : Thread ℕ ℕ ℕ ℕ ℕ
asked = record stopped_thread { queue = drop_tenant (user 2) ∷ [] }

asks : Reaches small_channel failing state_data stopped_thread asked
asks = further (here stopped_thread) (send stopped_thread (drop_tenant (user 2)))
