-- ===== src/Worker/Thread/Laws.antt =====
-- What every sequence of steps of a worker thread keeps.
use template_worker.Prelude.{
  ◌≡◌, ◌∙◌, refl, Bool, true, false, ◌&&◌, not, String, Result, ok, err, List, [], ◌∷◌, ◌++◌, arith,
  inl, inr, Option-cases, Bool-cases, Result-cases,
}
use template_worker.Prelude.Dict.{get}
use template_worker.Worker.Tenant.{TenantId, id_eq}
use template_worker.Geese.TenantState.{TenantState}
use template_worker.Mesophyll.Client.{Channel}
use template_worker.Worker.Node.{Node, remove_vm_for, reload_for_tenant}
use template_worker.Worker.Dispatch.{Run}
use template_worker.Worker.Thread.{
  Message, kill, drop_tenant, update_tenant_state, dispatch_event, Thread, spawn, handle, run_task,
  Step, send, receive, run, Reaches, here, further,
}

-- No task is for a state with which the tenant is banned.
unfoldable pub are_unbanned : List (TenantId × TenantState) → Bool
are_unbanned [] = true
are_unbanned ((id, ts) ∷ tasks) = not ts.modflags.banned && are_unbanned tasks

are_unbanned-append :
    (xs ys : List (TenantId × TenantState))
    → are_unbanned (xs ++ ys) ≡ (are_unbanned xs && are_unbanned ys)
unfolding are_unbanned
are_unbanned-append [] ys = refl
are_unbanned-append ((id, ts) ∷ xs) ys = ground (arith, are_unbanned-append xs ys)

module _ {R F : Type 0} (mark_broken : R → Result String (Unit {0})) (id : TenantId)
    (ts : TenantState) (n : Node R F) where
  reload-ok-false :
      (reload_for_tenant mark_broken id ts n).1 ≡ ok false → ts.modflags.banned ≡ false
  unfolding reload_for_tenant remove_vm_for
  reload-ok-false h = elim (Bool-cases ts.modflags.banned) [
    | inr e ↦ e
    | inl e ↦ elim (Option-cases (get id n.vms)) [
      | inl q ↦ absurd (ground (arith, e, q))
      | inr (vm, q) ↦ elim (Result-cases (mark_broken vm.runtime)) [
        | inl (u, p) ↦ absurd (ground (arith, e, q, p))
        | inr (m, p) ↦ absurd (ground (arith, e, q, p))
      ]
    ]
  ]

module _ {R F D V J : Type 0} (ch : Channel V J) (x : Run R F D V J)
    (state_data : TenantState → D) where
  Step-stopped :
      (t u : Thread R F D V J)
      → Step ch x state_data t u
      → t.stopped ≡ true
      → (u.stopped ≡ true) × (u.system ≡ t.system) × (u.replies ≡ t.replies)
  Step-stopped _ _ (send t m) h = (h, refl, refl)
  Step-stopped _ _ (receive t m rest alive q) h = absurd (ground (arith, alive, h))
  Step-stopped _ _ (run t before after id ts alive q) h = absurd (ground (arith, alive, h))

  -- A thread that was killed handles no further message and runs no task.
  pub Reaches-stopped :
      (t u : Thread R F D V J)
      → Reaches ch x state_data t u
      → t.stopped ≡ true
      → (u.stopped ≡ true) × (u.system ≡ t.system) × (u.replies ≡ t.replies)
  Reaches-stopped t _ (here _) h = (h, refl, refl)
  Reaches-stopped t v (further {u = u} steps last) h =
      let (stopped, system, replies) = Reaches-stopped t u steps h in
      let (stopped', system', replies') = Step-stopped u v last stopped in
      (stopped', system' ∙ system, replies' ∙ replies)

  spawn-are_unbanned :
      (id : TenantId) (ts : TenantState) (answer : Result String Bool) (t : Thread R F D V J)
      → are_unbanned t.tasks ≡ true
      → (answer ≡ ok false → ts.modflags.banned ≡ false)
      → are_unbanned (spawn ch x state_data id ts answer t).tasks ≡ true
  unfolding are_unbanned
  spawn-are_unbanned id ts (ok true) t h k = h
  spawn-are_unbanned id ts (err e) t h k = h
  spawn-are_unbanned id ts (ok false) t h k =
      ground (arith, are_unbanned-append t.tasks ((id, ts) ∷ []), k refl)

  handle-are_unbanned :
      (m : Message D) (t : Thread R F D V J)
      → are_unbanned t.tasks ≡ true
      → are_unbanned (handle ch x state_data m t).tasks ≡ true
  unfolding handle
  handle-are_unbanned kill t h = h
  handle-are_unbanned (drop_tenant id) t h = h
  handle-are_unbanned (update_tenant_state id ts) t h =
      let out = reload_for_tenant x.mark_broken id ts t.system.node in
      spawn-are_unbanned id ts out.1 (record t { system = record t.system { node = out.0 } }) h
        (reload-ok-false x.mark_broken id ts t.system.node)
  handle-are_unbanned (dispatch_event id ev true) t h = h
  handle-are_unbanned (dispatch_event id ev false) t h = h

  Step-are_unbanned :
      (t u : Thread R F D V J)
      → Step ch x state_data t u
      → are_unbanned t.tasks ≡ true
      → are_unbanned u.tasks ≡ true
  unfolding run_task are_unbanned
  Step-are_unbanned _ _ (send t m) h = h
  Step-are_unbanned _ _ (receive t m rest alive q) h =
      handle-are_unbanned m (record t { queue = rest }) h
  Step-are_unbanned _ _ (run t before after id ts alive q) h =
      ground (
        arith,
        q,
        h,
        are_unbanned-append before after,
        are_unbanned-append before ((id, ts) ∷ after),
      )

  -- At any time, no task waits that would tell a VM a state with which its tenant is banned, where none waited at first.
  pub Reaches-are_unbanned :
      (t u : Thread R F D V J)
      → Reaches ch x state_data t u
      → are_unbanned t.tasks ≡ true
      → are_unbanned u.tasks ≡ true
  Reaches-are_unbanned t _ (here _) h = h
  Reaches-are_unbanned t v (further {u = u} steps last) h =
      Step-are_unbanned u v last (Reaches-are_unbanned t u steps h)
