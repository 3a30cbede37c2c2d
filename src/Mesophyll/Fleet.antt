-- ===== src/Mesophyll/Fleet.antt =====
-- The master's connections to the workers: `register_worker`, `WorkerConnGuard` and `WorkerConn` of
-- src/mesophyll/server.rs, and the calls of src/master/workerpool.rs over them.
pub mod Laws
pub mod Examples
use Prim.Native.String.{◌++◌}
use template_worker.Prelude.{
  ℕ, Bool, String, Option, none, some, Result, ok, err, List, [], ◌∷◌, ◌++◌ as append, map_err,
  or_else, nat_eq, string_eq,
}
use template_worker.Prelude.Dict.{Dict, get, insert}
use template_worker.Prelude.Actions.{Action, pure, gets, lift, modify, ◌>>=◌, ◌>>◌}
use template_worker.Worker.Tenant.{TenantId, Snowflakes, worker_id}
use template_worker.Worker.SimpleEvent.{SimpleEvent}
use template_worker.Geese.TenantState.{TenantState}
use template_worker.Geese.State.Tables.{Db}
use template_worker.Mesophyll.Proto.{
  Status, internal, Wire, from_real_id, from_real, from_real_exec, to_real_exec,
}
use template_worker.Mesophyll.Server.{verify_worker}
use template_worker.Mesophyll.Thread.{
  WorkerThread, Wires, Process, dispatch_event, drop_tenant, update_tenant_state, shutdown,
}
use template_worker.Master.Handler.{WorkerPool}

-- `conns` holds the endpoint of each worker; `processes` are the workers that listen, by endpoint;
-- `shutdowns` are the endpoints that a spawned task is about to shut down.
pub record Fleet (W : Type 0) : Type 0 where
  pub conns : Dict ℕ String
  pub processes : Dict String (Process W)
  pub shutdowns : List String

-- `WorkerIdent`
pub record WorkerIdent : Type 0 where
  pub worker_id : ℕ
  pub endpoint : String

module _ {V W : Type 0} (sf : Snowflakes) (wt : WorkerThread V W) (wires : Wires V) (pool_size : ℕ)
    (status_text : Status → String) (show : ℕ → String) where
  -- A call of the worker at an endpoint; without a process there, the transport fails.
  abbrev pub call : {A : Type 0} → String → Action (Process W) Status A → Action (Fleet W) String A
  call endpoint f s = elim (get endpoint s.processes) [
    | none ↦ (s, err (status_text (internal "transport error")))
    | some p ↦
        let (p', r) = f p in
        (record s { processes = insert endpoint p' s.processes }, map_err status_text r)
  ]

  unfoldable pub get_connection : ℕ → Fleet W → Option String
  unfolding get
  get_connection wid s = get wid s.conns

  -- The guard that is replaced is dropped: a task that shuts its worker down is spawned.
  abbrev pub drop_guard : Option String → List String → List String
  drop_guard none shutdowns = shutdowns
  drop_guard (some endpoint) shutdowns = append shutdowns (endpoint ∷ [])

  abbrev connect : String → Action (Fleet W) Status (Unit {0})
  connect endpoint s = elim (get endpoint s.processes) [
    | none ↦ (s, err (internal "transport error"))
    | some p ↦ (s, ok tt)
  ]

  unfoldable pub register_worker : WorkerIdent → Action (Fleet W) Status (Unit {0})
  unfolding verify_worker get insert
  register_worker req = do
    wid ← lift (verify_worker pool_size req.worker_id)
    connect req.endpoint
    modify (λ s. record s {
      conns = insert wid req.endpoint s.conns;
      shutdowns = drop_guard (get wid s.conns) s.shutdowns;
    })

  -- `WorkerConn::shutdown`, and the spawned task that calls it and drops the answer
  unfoldable pub shutdown_worker : String → Action (Fleet W) String (Unit {0})
  unfolding shutdown
  shutdown_worker endpoint = call endpoint (shutdown wt wires)

  unfoldable pub run_shutdown : Fleet W → Fleet W
  unfolding shutdown_worker
  run_shutdown s = elim s.shutdowns [
    | [] ↦ s
    | endpoint ∷ rest ↦ (shutdown_worker endpoint (record s { shutdowns = rest })).0
  ]

  -- `WorkerConn::dispatch_event`, `drop_tenant` and `update_tenant_state`
  unfoldable pub conn_dispatch_event : String → TenantId → SimpleEvent V → Action (Fleet W) String V
  unfolding from_real to_real_exec dispatch_event
  conn_dispatch_event endpoint id event = do
    pb_event ← lift (map_err status_text (from_real wires.event event))
    bytes ← call endpoint (
        dispatch_event wt wires
          (record { id = some (from_real_id id); event_payload = some pb_event }))
    lift (to_real_exec wires.value bytes)

  unfoldable pub conn_drop_tenant : String → TenantId → Action (Fleet W) String (Unit {0})
  unfolding drop_tenant
  conn_drop_tenant endpoint id = call endpoint (drop_tenant wt wires (from_real_id id))

  unfoldable pub conn_update_tenant_state :
      String → TenantId → TenantState → Action (Fleet W) String Bool
  unfolding from_real update_tenant_state
  conn_update_tenant_state endpoint id ts = do
    pb_ts ← lift (map_err status_text (from_real wires.tenant_state ts))
    call endpoint (
        update_tenant_state wt wires
          (record { id = some (from_real_id id); new_tenant_state = some pb_ts }))

  -- The connection of a tenant's worker
  unfoldable pub connection_of : TenantId → Action (Fleet W) String String
  unfolding get_connection
  connection_of id = do
    found ← gets (get_connection (worker_id sf id pool_size))
    lift (
        or_else found (
          "No Mesophyll connection found for worker process with ID: "
          ++ show (worker_id sf id pool_size)))

  -- `WorkerPool::dispatch_event`, `drop_tenant` and `update_tenant_state`
  unfoldable pub pool_dispatch_event : TenantId → SimpleEvent V → Action (Fleet W) String V
  unfolding connection_of conn_dispatch_event
  pool_dispatch_event id event = do r ← connection_of id; conn_dispatch_event r id event

  unfoldable pub pool_drop_tenant : TenantId → Action (Fleet W) String (Unit {0})
  unfolding connection_of conn_drop_tenant
  pool_drop_tenant id = do r ← connection_of id; conn_drop_tenant r id

  unfoldable pub pool_update_tenant_state : TenantId → TenantState → Action (Fleet W) String Bool
  unfolding connection_of conn_update_tenant_state
  pool_update_tenant_state id ts = do r ← connection_of id; conn_update_tenant_state r id ts

  -- What the calls of src/master/syscall/bot.rs are given: `writes` says what the worker does meanwhile
  -- to the database of the master, when an event of a tenant is dispatched.
  abbrev pub pool :
      {J : Type 0} → (TenantId → SimpleEvent V → Fleet W → Db J → Db J) → WorkerPool V J
  pool {J} writes = record {
    Fleet = Fleet W;
    dispatch_event = λ id event s.
        let (f, r) = pool_dispatch_event id event s.0 in ((f, writes id event s.0 s.1), r);
    drop_tenant = λ id s. let (f, r) = pool_drop_tenant id s.0 in ((f, s.1), r);
    update_tenant_state =
        λ id ts s. let (f, r) = pool_update_tenant_state id ts s.0 in ((f, s.1), r);
  }
