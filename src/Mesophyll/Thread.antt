-- ===== src/Mesophyll/Thread.antt =====
-- The worker's service of src/mesophyll/client.rs: what the master calls, answered by the worker's
-- thread.
use template_worker.Prelude.{
  ℕ, Bool, true, String, Option, ok, err, List, map_err, or_else, if◌then◌else◌,
}
use template_worker.Prelude.Actions.{Action, lift, modify, ◌>>=◌, ◌>>◌}
use template_worker.Worker.Tenant.{TenantId}
use template_worker.Worker.SimpleEvent.{SimpleEvent}
use template_worker.Geese.TenantState.{TenantState}
use template_worker.Mesophyll.Proto.{
  Status, internal, invalid_argument, Wire, PbId, to_real_id, from_real, to_real,
}

-- `WorkerThread`: the calls that wait for the answer of the thread; `W` is the state of the worker.
pub record WorkerThread (V W : Type 0) : Type 0 where
  pub dispatch_event : TenantId → SimpleEvent V → Action W String V
  pub drop_tenant : TenantId → Action W String (Unit {0})
  pub update_tenant_state : TenantId → TenantState → Action W String Bool
  pub kill : Action W String (Unit {0})

pub record DispatchEventReq : Type 0 where
  pub id : Option PbId
  pub event_payload : Option (List ℕ)

pub record UpdateTenantStateReq : Type 0 where
  pub id : Option PbId
  pub new_tenant_state : Option (List ℕ)

-- A worker process: whether `set_wt` was called, the worker, and whether it is about to exit.
pub record Process (W : Type 0) : Type 0 where
  pub has_wt : Bool
  pub worker : W
  pub is_exiting : Bool

-- MessagePack for what the calls carry
pub record Wires (V : Type 0) : Type 0 where
  pub event : Wire (SimpleEvent V)
  pub value : Wire V
  pub tenant_state : Wire TenantState

module _ {V W : Type 0} (wt : WorkerThread V W) (wires : Wires V) where
  -- The thread is asked, and its error becomes a status.
  abbrev ask : {A : Type 0} → Action W String A → Action (Process W) Status A
  ask f p = let (w, r) = f p.worker in (record p { worker = w }, map_err internal r)

  -- `try_wt`
  abbrev try_wt : Action (Process W) Status (Unit {0})
  try_wt p = (p, (if p.has_wt then ok tt else err (internal "WorkerThread not up yet!")))

  -- `set_wt`, which is done once
  unfoldable pub set_wt : W → Action (Process W) String (Unit {0})
  set_wt w p =
      if p.has_wt
      then (p, err "wt already set")
      else (record p { has_wt = true; worker = w }, ok tt)

  unfoldable pub dispatch_event : DispatchEventReq → Action (Process W) Status (List ℕ)
  unfolding to_real from_real
  dispatch_event req = do
    pb_id ← lift (or_else req.id (invalid_argument "Missing ID"))
    payload ← lift (or_else req.event_payload (invalid_argument "Missing event_payload"))
    evt ← lift (to_real wires.event payload)
    try_wt
    result ← ask (wt.dispatch_event (to_real_id pb_id) evt)
    lift (from_real wires.value result)

  unfoldable pub drop_tenant : PbId → Action (Process W) Status (Unit {0})
  drop_tenant pb_id = do try_wt; ask (wt.drop_tenant (to_real_id pb_id))

  unfoldable pub update_tenant_state : UpdateTenantStateReq → Action (Process W) Status Bool
  unfolding to_real
  update_tenant_state req = do
    pb_id ← lift (or_else req.id (invalid_argument "Missing ID"))
    payload ← lift (or_else req.new_tenant_state (invalid_argument "Missing new_tenant_state"))
    ts ← lift (to_real wires.tenant_state payload)
    try_wt
    ask (wt.update_tenant_state (to_real_id pb_id) ts)

  -- The answer of the thread is not looked at; the process exits five seconds later.
  unfoldable pub shutdown : Action (Process W) Status (Unit {0})
  shutdown = do try_wt; modify (λ p. record p { worker = (wt.kill p.worker).0; is_exiting = true })
