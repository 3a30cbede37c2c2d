-- ===== src/Worker/Dispatch.antt =====
-- `WorkerDispatch` of src/worker/workerdispatch.rs: an event reaches the VM of its tenant, and an
-- error of the VM is kept in the tenant's key-value store.
pub mod Laws
pub mod Subscribed
use template_worker.Prelude.{
  ℕ, Bool, true, false, ◌&&◌, ◌||◌, not, String, Option, none, some, Result, ok, err, List, [], ◌∷◌,
  if◌then◌else◌, string_eq,
}
use Prim.Native.String.{◌++◌}
use template_worker.Prelude.Dict.{contains_key}
use template_worker.Worker.Tenant.{TenantId}
use template_worker.Geese.TenantState.{TenantState, is_default_event}
use template_worker.Geese.State.Ops.{StateOp, worker_flags}
use template_worker.Geese.State.Tables.{Db, StateExecResponse}
use template_worker.Geese.State.Exec.{Request}
use template_worker.Mesophyll.Client.{Channel, client_exec_state_op}
use template_worker.Worker.Node.{
  Luau, VmState, Node, get_cached_tenant_state_for, get_vm_for, reload_for_tenant,
}

-- `Event`; `D` is the type of its data.
pub record Event (D : Type 0) : Type 0 where
  pub name : String
  pub author : Option ℕ
  pub payload : D

-- A worker and the database behind the master
pub record System (R F J : Type 0) : Type 0 where
  pub node : Node R F
  pub db : Db J

-- What one dispatch meets. `run` is what the handlers in the VM do to the system and answer; `text`
-- and `null` are values of Luau; `sample` is the key of a saved error.
pub record Run (R F D V J : Type 0) : Type 0 where
  pub luau : Luau R F
  pub is_broken : R → Bool
  pub mark_broken : R → Result String (Unit {0})
  pub run : VmState R F → Event D → System R F J → System R F J × Result String V
  pub text : String → V
  pub null : V
  pub sample : String
  pub request : Request

module _ {R F D V J : Type 0} (ch : Channel V J) (x : Run R F D V J) where
  -- The state that came with an answer of the master replaces the cached one.
  abbrev pub reload_from : TenantId → System R F J → Option TenantState → System R F J
  reload_from id s none = s
  reload_from id s (some ts) = record s { node = (reload_for_tenant x.mark_broken id ts s.node).0 }

  abbrev after_save :
      TenantId → System R F J → Db J × Result String (StateExecResponse V) → System R F J
  after_save id s (db, err e) = record s { db = db }
  after_save id s (db, ok resp) = reload_from id (record s { db = db }) resp.new_tenant_state

  -- Errors of `save_error` are logged only.
  unfoldable pub save_error : TenantId → String → System R F J → System R F J
  save_error id error s = after_save id s (
      client_exec_state_op ch id (StateOp.kv_set x.sample "#err" (x.text error) none ∷ [])
        worker_flags x.request s.db)

  abbrev finish_run : TenantId → System R F J × Result String V → System R F J × Result String V
  finish_run id (s, ok v) = (s, ok v)
  finish_run id (s, err e) = (save_error id e s, err e)

  abbrev with_vm :
      TenantId
      → Event D
      → Db J
      → Node R F × Result String (VmState R F)
      → System R F J × Result String V
  with_vm id ev db (n, err e) =
      (record { node = n; db = db }, err ("Failed to get VM for ID: " ++ e))
  with_vm id ev db (n, ok vm) =
      if x.is_broken vm.runtime
      then (record { node = n; db = db }, err "Lua VM to dispatch to is broken")
      else finish_run id (x.run vm ev (record { node = n; db = db }))

  unfoldable pub dispatch_event_complex :
      TenantId → Event D → System R F J → System R F J × Result String V
  unfolding save_error
  dispatch_event_complex id ev s =
      let ts = get_cached_tenant_state_for id s.node in
      if not (contains_key ev.name ts.events) && not (is_default_event ev.name)
      then (s, ok x.null)
      else with_vm id ev s.db (get_vm_for x.luau id s.node)
