-- ===== src/Worker/Dispatch/Laws.antt =====
-- Which events reach a VM, and what is left of an error.
use template_worker.Prelude.{
  ℕ, ◌≡◌, ap, Bool, true, false, ◌||◌, String, none, ok, err, List, [], ◌∷◌, arith, ltb, inl, inr,
  Option-cases, Result-cases, string_eq,
}
use template_worker.Prelude.Dict.{contains_key}
use template_worker.Worker.Tenant.{TenantId, IsValid, worker_id}
use template_worker.Geese.TenantState.{is_default_event}
use template_worker.Geese.State.Ops.{StateOp, worker_flags, no_flags}
use template_worker.Geese.State.Tables.{KvLookup, kv, StateExecResponse}
use template_worker.Geese.State.Exec.{do_op, Request, empty_response}
use template_worker.Geese.State.Reads.{get-set}
use template_worker.Mesophyll.Client.{Channel, client_exec_state_op}
use template_worker.Mesophyll.Routing.{client_exec_state_op-ok}
use template_worker.Worker.Node.{VmState, Node, get_cached_tenant_state_for, get_vm_for}
use template_worker.Worker.Dispatch.{Event, System, Run, save_error, dispatch_event_complex}

module _ {R F D V J : Type 0} (ch : Channel V J) (x : Run R F D V J) (id : TenantId) (ev : Event D)
    (s : System R F J) where
  -- Whether the event is for the tenant
  abbrev pub is_registered : Bool
  is_registered =
      contains_key ev.name (get_cached_tenant_state_for id s.node).events
      || is_default_event ev.name

  -- The guard of `dispatch_event_complex`
  pub dispatch_event_complex-unregistered :
      is_registered ≡ false → dispatch_event_complex ch x id ev s ≡ (s, ok x.null)
  unfolding dispatch_event_complex
  dispatch_event_complex-unregistered h = ground arith

  -- The error of a failed run is answered, after it was handed to the tenant's error log.
  failed :
      (n : Node R F) (vm : VmState R F) (s' : System R F J) (e : String)
      → is_registered ≡ true
      → get_vm_for x.luau id s.node ≡ (n, ok vm)
      → x.is_broken vm.runtime ≡ false
      → x.run vm ev (record { node = n; db = s.db }) ≡ (s', err e)
      → dispatch_event_complex ch x id ev s ≡ (save_error ch x id e s', err e)
  unfolding dispatch_event_complex
  failed n vm s' e r v b f = ground arith

module _ {R F D V J : Type 0} (ch : Channel V J) (x : Run R F D V J) (id : TenantId) where
  saved_db :
      (e : String) (s : System R F J)
      → (save_error ch x id e s).db
        ≡ (client_exec_state_op ch id
            (StateOp.kv_set x.sample "#err" (x.text e) none ∷ [])
            worker_flags
            x.request
            s.db).0
  unfolding save_error
  saved_db e s =
      let out =
        client_exec_state_op ch id (StateOp.kv_set x.sample "#err" (x.text e) none ∷ [])
          worker_flags x.request s.db in
      elim (Result-cases out.1) [
        | inr (m, q) ↦ ground (arith, q)
        | inl (resp, q) ↦ elim (Option-cases resp.new_tenant_state) [
          | inl p ↦ ground (arith, q, p)
          | inr (ts, p) ↦ ground (arith, q, p)
        ]
      ]

  -- The write of an error to the tenant's log
  abbrev pub saving : String → List (StateOp V)
  saving e = StateOp.kv_set x.sample "#err" (x.text e) none ∷ []

  -- An error of a run for a registered event on an unbroken VM is answered, and stands in the error log of the valid tenant under the sampled key, readable by the tenant, where the tenant is routed to this worker, the write and its answer can be sent, the master stores the error, and the reading statement is not refused.
  pub dispatch_event_complex-failed :
      (ev : Event D) (s s' : System R F J) (n : Node R F) (vm : VmState R F) (e : String)
      (resp : StateExecResponse V) (payload bytes : List ℕ) (reader : Request)
      → is_registered ch x id ev s ≡ true
      → get_vm_for x.luau id s.node ≡ (n, ok vm)
      → x.is_broken vm.runtime ≡ false
      → x.run vm ev (record { node = n; db = s.db }) ≡ (s', err e)
      → IsValid id
      → ltb ch.num_workers ch.worker_id ≡ false
      → worker_id ch.world.sf id ch.num_workers ≡ ch.worker_id
      → ch.ops_wire.received (saving e) ≡ saving e
      → ch.ops_wire.to_vec (saving e) ≡ ok payload
      → ch.response_wire.to_vec resp ≡ ok bytes
      → (do_op ch.world id (saving e) worker_flags x.request s'.db).1 ≡ ok resp
      → reader.faults 0 ≡ none
      → ((dispatch_event_complex ch x id ev s).1 ≡ err e)
        × ((l : KvLookup V) × ((do_op ch.world id
                (StateOp.kv_get x.sample "#err" ∷ [])
                no_flags
                reader
                (dispatch_event_complex ch x id ev s).0.db).1
              ≡ ok (record empty_response { results = kv l ∷ [] }))
            × (l.value ≡ x.text e))
  dispatch_event_complex-failed ev s s' n vm e resp payload bytes reader r v b f valid known routed
        whole sent back done reads =
      let ends = failed ch x id ev s n vm s' e r v b f in
      let written =
        client_exec_state_op-ok ch id (saving e) worker_flags x.request s'.db resp payload bytes
          valid known routed whole sent back done in
      let (l, answered, _, _, value, _) =
        get-set ch.world id x.sample "#err" worker_flags no_flags x.request reader (x.text e) none
          s'.db resp done reads in
      (ap (λ o. o.1) ends, (l, rw ends (rw (saved_db e s') (rw written answered)), value))
