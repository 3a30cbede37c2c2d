-- ===== src/Worker/Node.antt =====
-- `WorkerVmManager` and `WorkerTenantState` of src/worker: the VMs of a worker's tenants and the
-- cached states of the tenants, which route the events. A VM is a runtime with its dispatch
-- function; both are handles of the Lua runtime (crate khronos_runtime), which is the interface `Luau`.
use template_worker.Prelude.{
  Bool, true, false, String, Option, none, some, Result, ok, err, List, [], ◌∷◌, ◌>>=◌,
  if◌then◌else◌,
}
use template_worker.Prelude.Dict.{Dict, get, insert, remove, contains_key}
use template_worker.Prelude.Rows.{select}
use template_worker.Worker.Tenant.{TenantId, id_eq}
use template_worker.Geese.TenantState.{TenantState, default}
use template_worker.Prelude.{string_eq}

-- What the Lua runtime answers while a VM is made: `R` are runtimes, `F` functions.
pub record Luau (R F : Type 0) : Type 0 where
  pub configure_runtime : Result String R
  pub eval_templateloop : R → Result String F
  pub call : F → TenantId → TenantState → Result String F

pub record VmState (R F : Type 0) : Type 0 where
  pub runtime : R
  pub dispatch_func : F

-- The two maps that the manager and the tenant state share within a worker
pub record Node (R F : Type 0) : Type 0 where
  pub vms : Dict TenantId (VmState R F)
  pub cache : Dict TenantId TenantState

abbrev or_default : Option TenantState → TenantState
or_default none = default
or_default (some s) = s

abbrev starts_up : TenantId × TenantState → Bool
starts_up (id, ts) = contains_key "OnStartup" ts.events

abbrev ids : Dict TenantId TenantState → List TenantId
ids [] = []
ids ((id, ts) ∷ m) = id ∷ ids m

module _ {R F : Type 0} where
  -- A tenant without a cached state has the default state.
  unfoldable pub get_cached_tenant_state_for : TenantId → Node R F → TenantState
  get_cached_tenant_state_for id n = or_default (get id n.cache)

  unfoldable pub create_vm : Luau R F → TenantId → Node R F → Result String (VmState R F)
  create_vm luau id n = do
    runtime ← luau.configure_runtime
    func ← luau.eval_templateloop runtime
    dispatch_func ← luau.call func id (get_cached_tenant_state_for id n)
    ok (record { runtime = runtime; dispatch_func = dispatch_func })

  abbrev keep_vm :
      TenantId → Node R F → Result String (VmState R F) → Node R F × Result String (VmState R F)
  keep_vm id n (err e) = (n, err e)
  keep_vm id n (ok vm) = (record n { vms = insert id vm n.vms }, ok vm)

  unfoldable pub get_vm_for :
      Luau R F → TenantId → Node R F → Node R F × Result String (VmState R F)
  get_vm_for luau id n = elim (get id n.vms) [
    | some vm ↦ (n, ok vm)
    | none ↦ keep_vm id n (create_vm luau id n)
  ]

  -- The callback of `set_on_broken`: it does nothing while the map of VMs is borrowed.
  unfoldable pub on_broken : Bool → TenantId → Node R F → Node R F
  on_broken borrowed id n = if borrowed then n else record n { vms = remove id n.vms }

  -- The VM leaves the map, and is then marked broken, which may fail.
  unfoldable pub remove_vm_for :
      (R → Result String (Unit {0})) → TenantId → Node R F → Node R F × Result String (Unit {0})
  remove_vm_for mark_broken id n = elim (get id n.vms) [
    | none ↦ (n, ok tt)
    | some vm ↦ (record n { vms = remove id n.vms }, mark_broken vm.runtime)
  ]

  abbrev reloaded : Node R F × Result String (Unit {0}) → Node R F × Result String Bool
  reloaded (n, err e) = (n, err e)
  reloaded (n, ok u) = (n, ok true)

  -- A banned tenant loses its VM.
  unfoldable pub reload_for_tenant :
      (R → Result String (Unit {0}))
      → TenantId
      → TenantState
      → Node R F
      → Node R F × Result String Bool
  unfolding remove_vm_for
  reload_for_tenant mark_broken id ts n =
      let cached : Node R F = record n { cache = insert id ts n.cache } in
      if ts.modflags.banned
      then reloaded (remove_vm_for mark_broken id cached)
      else (cached, ok false)

  unfoldable pub get_startup_event_tenants : Node R F → List TenantId
  get_startup_event_tenants n = ids (select starts_up n.cache)
