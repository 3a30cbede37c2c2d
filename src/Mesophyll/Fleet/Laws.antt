-- ===== src/Mesophyll/Fleet/Laws.antt =====
-- Which worker the master's calls reach, and what a new registration does.
use template_worker.Prelude.{
  ℕ, ◌≡◌, true, String, some, ok, List, arith, ◌==◌, if◌then◌else◌, nat_eq, string_eq,
}
use template_worker.Prelude.Dict.{get, insert, get-insert}
use template_worker.Worker.Tenant.{TenantId, Snowflakes, worker_id, IsValid}
use template_worker.Worker.SimpleEvent.{SimpleEvent}
use template_worker.Mesophyll.Proto.{
  Status, from_real_id, to_real_id-from_real_id, from_real, to_real, to_real_exec, from_real_exec,
}
use template_worker.Mesophyll.Server.{verify_worker}
use template_worker.Mesophyll.Thread.{WorkerThread, Wires, Process, dispatch_event}
use template_worker.Mesophyll.Fleet.{
  Fleet, WorkerIdent, get_connection, register_worker, conn_dispatch_event, connection_of,
  pool_dispatch_event, drop_guard,
}

module _ {V W : Type 0} (sf : Snowflakes) (wt : WorkerThread V W) (wires : Wires V) (pool_size : ℕ)
    (status_text : Status → String) (show : ℕ → String) where
  -- An event that can be written arrives at the thread as it was sent.
  handler_receives :
      (id : TenantId) (ev : SimpleEvent V) (b out : List ℕ) (v : V) (p : Process W)
      → IsValid id
      → p.has_wt ≡ true
      → wires.event.to_vec ev ≡ ok b
      → wires.event.received ev ≡ ev
      → (wt.dispatch_event id ev p.worker).1 ≡ ok v
      → wires.value.to_vec v ≡ ok out
      → dispatch_event wt wires (record { id = some (from_real_id id); event_payload = some b }) p
        ≡ (record p { worker = (wt.dispatch_event id ev p.worker).0 }, ok out)
  unfolding dispatch_event to_real to_real_exec from_real from_real_exec
  handler_receives id ev b out v p valid up sent same answered back =
      grind (arith, wires.event.from_slice-to_vec ev b sent, to_real_id-from_real_id id valid)

  -- An event for a tenant is handed, as it was sent, to the thread of the worker that the tenant belongs
  -- to, and the answer of the thread comes back; only that worker's process changes. This holds for a
  -- valid tenant whose worker is registered and listens with its thread up, where the event and the
  -- answer can be written and the event is read as it was.
  pub pool_dispatch_event_lem :
      (id : TenantId) (ev : SimpleEvent V) (endpoint : String) (b out : List ℕ) (v : V)
      (p : Process W) (s : Fleet W)
      → IsValid id
      → get (worker_id sf id pool_size) s.conns ≡ some endpoint
      → get endpoint s.processes ≡ some p
      → p.has_wt ≡ true
      → wires.event.to_vec ev ≡ ok b
      → wires.event.received ev ≡ ev
      → (wt.dispatch_event id ev p.worker).1 ≡ ok v
      → wires.value.to_vec v ≡ ok out
      → pool_dispatch_event sf wt wires pool_size status_text show id ev s ≡ (
        record s {
          processes =
              insert endpoint
                (record p { worker = (wt.dispatch_event id ev p.worker).0 })
                s.processes;
        },
        ok (wires.value.received v),
      )
  unfolding pool_dispatch_event connection_of get_connection conn_dispatch_event from_real
      from_real_exec to_real_exec
  pool_dispatch_event_lem id ev endpoint b out v p s valid conn there up sent same answered back =
      grind (
        arith,
        handler_receives id ev b out v p valid up sent same answered back,
        wires.value.from_slice-to_vec v out back,
      )

  -- A worker that registers is the one that is called for its id from then on, whatever was called
  -- before; the calls for other ids go where they went; the worker that it replaces is to be shut down,
  -- after those that were to be before; and no process has changed yet.
  pub register_worker-eq-ok :
      (req : WorkerIdent) (wid : ℕ) (s : Fleet W)
      → (register_worker sf wt wires pool_size status_text show req s).1 ≡ ok tt
      → let after = (register_worker sf wt wires pool_size status_text show req s).0 in
        (get wid after.conns
          ≡ (if req.worker_id == wid then some req.endpoint else get wid s.conns))
        × (after.shutdowns
            ≡ drop_guard sf wt wires pool_size status_text show
                (get req.worker_id s.conns)
                s.shutdowns)
        × (after.processes ≡ s.processes)
  unfolding register_worker verify_worker
  register_worker-eq-ok req wid s h =
      (grind (arith, get-insert req.worker_id wid req.endpoint s.conns), ground arith, ground arith)
