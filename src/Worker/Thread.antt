-- ===== src/Worker/Thread.antt =====
-- src/worker/workerthread.rs: the loop that handles the messages to a worker, as steps. Other
-- threads add messages; tasks that a message spawned run between two messages, in any order. A
-- dispatch that is awaited is one step: what runs meanwhile is part of what its VM's run does.
pub mod Laws
pub mod Examples
use template_worker.Prelude.{
  ℕ, ◌≡◌, Bool, true, false, String, Option, none, some, Result, ok, err, List, [], ◌∷◌, ◌++◌,
  if◌then◌else◌,
}
use template_worker.Worker.Tenant.{TenantId}
use template_worker.Geese.TenantState.{TenantState}
use template_worker.Mesophyll.Client.{Channel}
use template_worker.Worker.Node.{Node, remove_vm_for, reload_for_tenant}
use template_worker.Worker.Dispatch.{Event, System, Run, dispatch_event_complex}

-- `WorkerThreadMessage`; an event may come without a place for its answer.
pub data Message (D : Type 0) : Type 0 where
  kill : Message D
  drop_tenant : TenantId → Message D
  update_tenant_state : TenantId → TenantState → Message D
  dispatch_event : TenantId → Event D → Bool → Message D

pub data Reply (V : Type 0) : Type 0 where
  killed : Reply V
  dropped : Result String (Unit {0}) → Reply V
  updated : Result String Bool → Reply V
  dispatched : Result String V → Reply V

-- `tasks` are the spawned events `$UpdateTenantState` that have not run yet.
pub record Thread (R F D V J : Type 0) : Type 0 where
  pub system : System R F J
  pub queue : List (Message D)
  pub tasks : List (TenantId × TenantState)
  pub replies : List (Reply V)
  pub stopped : Bool

module _ {R F D V J : Type 0} (ch : Channel V J) (x : Run R F D V J)
    (state_data : TenantState → D) where
  -- The event that tells a VM its new state
  abbrev pub update_event : TenantState → Event D
  update_event ts = record { name = "$UpdateTenantState"; author = none; payload = state_data ts }

  abbrev pub reply : Reply V → Thread R F D V J → Thread R F D V J
  reply r t = record t { replies = t.replies ++ r ∷ [] }

  -- A state that did not cost the tenant its VM is told to the VM.
  abbrev pub spawn :
      TenantId → TenantState → Result String Bool → Thread R F D V J → Thread R F D V J
  spawn id ts (ok false) t = record t { tasks = t.tasks ++ (id, ts) ∷ [] }
  spawn id ts (ok true) t = t
  spawn id ts (err e) t = t

  unfoldable pub handle : Message D → Thread R F D V J → Thread R F D V J
  handle kill t = reply killed (record t { stopped = true })
  handle (drop_tenant id) t =
      let out = remove_vm_for x.mark_broken id t.system.node in
      reply (dropped out.1) (record t { system = record t.system { node = out.0 } })
  handle (update_tenant_state id ts) t =
      let out = reload_for_tenant x.mark_broken id ts t.system.node in
      reply (updated out.1)
        (spawn id ts out.1 (record t { system = record t.system { node = out.0 } }))
  handle (dispatch_event id ev wanted) t =
      let out = dispatch_event_complex ch x id ev t.system in
      let done : Thread R F D V J = record t { system = out.0 } in
      if wanted then reply (dispatched out.1) done else done

  -- An error of a task is only logged.
  unfoldable pub run_task : TenantId → TenantState → Thread R F D V J → Thread R F D V J
  run_task id ts t = record t {
    system = (dispatch_event_complex ch x id (update_event ts) t.system).0;
  }

  -- One step of the thread or of its surroundings
  pub data Step : Thread R F D V J → Thread R F D V J → Type 0 where
    send : (t : Thread R F D V J) (m : Message D) → Step t (record t { queue = t.queue ++ m ∷ [] })
    receive :
        (t : Thread R F D V J) (m : Message D) (rest : List (Message D))
        → t.stopped ≡ false
        → t.queue ≡ m ∷ rest
        → Step t (handle m (record t { queue = rest }))
    run :
        (t : Thread R F D V J) (before after : List (TenantId × TenantState)) (id : TenantId)
        (ts : TenantState)
        → t.stopped ≡ false
        → t.tasks ≡ before ++ (id, ts) ∷ after
        → Step t (run_task id ts (record t { tasks = before ++ after }))

  pub data Reaches : Thread R F D V J → Thread R F D V J → Type 0 where
    here : (t : Thread R F D V J) → Reaches t t
    further : {t u v : Thread R F D V J} → Reaches t u → Step u v → Reaches t v
