-- ===== src/Worker/Coherence.antt =====
-- The routing table of a worker against the database: the cached states are the stored ones.
use template_worker.Prelude.{
  ◌≡◌, ◌≢◌, ◌∙◌, ◌⊎◌, refl, sym, subst, ap, Bool, true, false, String, Option, none, some, Result,
  ok, err, List, [], ◌∷◌, arith, inl, inr, Option-cases, Bool-cases, Result-cases,
}
use template_worker.Prelude.Rows.{select, first}
use template_worker.Worker.Tenant.{TenantId, IsValid, beq, beq_iff}
use template_worker.Geese.TenantState.{
  TenantState, default, StateTables, owned_by, get_tenant_state_for,
}
use template_worker.Geese.State.Ops.{StateOp, FastStateReq, StateDbFlags, from_ops, no_flags}
use template_worker.Geese.State.Tables.{World, Db, StateExecResponse}
use template_worker.Geese.State.Exec.{do_op, Request}
use template_worker.Geese.State.Atomicity.{do_op-new_tenant_state}
use template_worker.Geese.State.Isolation.{SameRows, do_op-SameRows}
use template_worker.Geese.State.Subscriptions.{state_found}
use template_worker.Geese.State.Changes.{has_state, keeps_key}
use template_worker.Geese.State.Flag.{do_op-Step}
use template_worker.Mesophyll.Client.{Channel, client_exec_state_op}
use template_worker.Mesophyll.Routing.{client_exec_state_op-eq-ok}
use template_worker.Worker.Node.{Node, get_cached_tenant_state_for, reload_for_tenant}
use template_worker.Worker.Vms.{reload_for_tenant_lem, reload_for_tenant_keeps}
use template_worker.Worker.Dispatch.{System}
use template_worker.Worker.Syscall.{SyscallRet, Surroundings, state_syscall}

first-select :
    {A : Type 0} (p : A → Bool) (xs : List A) → first p xs ≡ first (λ a. true) (select p xs)
unfolding first select
first-select p [] = refl
first-select p (x ∷ xs) = ground (arith, first-select p xs)

module _ {V J : Type 0} (w : World V J) (j : TenantId) (d d' : Db J) where
  same_state :
      SameRows w j d d'
      → get_tenant_state_for w.sf j d'.states ≡ get_tenant_state_for w.sf j d.states
  unfolding get_tenant_state_for
  same_state same = ground (
    arith,
    same.states,
    same.events,
    first-select (λ r. owned_by w.sf j r.owner_id r.owner_type) d.states.tenant_state,
    first-select (λ r. owned_by w.sf j r.owner_id r.owner_type) d'.states.tenant_state,
  )

-- The state that a tenant has where no row says otherwise
abbrev pub stored : Option TenantState → TenantState
stored none = default
stored (some ts) = ts

id-cases : (i j : TenantId) → (i ≡ j) ⊎ (i ≢ j)
id-cases i j = elim (Bool-cases (beq i j)) [
  | inl e ↦ inl ((beq_iff i j).0 e)
  | inr e ↦ inr (λ same. absurd (ground (arith, beq_iff i j, e, same)))
]

-- The worker after an answer that may carry a new state
module _ {R F : Type 0} (mark_broken : R → Result String (Unit {0})) (id : TenantId)
    (n : Node R F) where
  abbrev renewed : Option TenantState → Node R F
  renewed none = n
  renewed (some ts) = (reload_for_tenant mark_broken id ts n).0

module _ {R F V J : Type 0} (w : World V J) (mark_broken : R → Result String (Unit {0}))
    (id j : TenantId) (n : Node R F) (ops : List (StateOp V)) (flags : StateDbFlags) (rq : Request)
    (db : Db J) (r : StateExecResponse V) where
  abbrev tables : StateTables
  tables = (do_op w id ops flags rq db).0.states

  unchanged :
      keeps_key db.states ≡ true
      → (do_op w id ops flags rq db).1 ≡ ok r
      → r.tenant_state_changed ≡ false
      → (r.new_tenant_state ≡ none) × (tables ≡ db.states)
  unchanged key done same = (
    do_op-new_tenant_state w id flags rq ops db r done ∙ rw same refl,
    rw same at (do_op-Step w id flags rq ops db r key done).1,
  )

  changed :
      keeps_key db.states ≡ true
      → (do_op w id ops flags rq db).1 ≡ ok r
      → r.tenant_state_changed ≡ true
      → (ts : TenantState) × (r.new_tenant_state ≡ some ts)
        × (get_tenant_state_for w.sf id tables ≡ some ts)
  changed key done new =
      let there : has_state w id tables ≡ true =
        rw new at (do_op-Step w id flags rq ops db r key done).1 in
      let (ts, found) = state_found w id "" "" (do_op w id ops flags rq db).0 there in
      (ts, do_op-new_tenant_state w id flags rq ops db r done ∙ rw new found, found)

  other :
      IsValid id
      → IsValid j
      → id ≢ j
      → get_tenant_state_for w.sf j tables ≡ get_tenant_state_for w.sf j db.states
  other vi vj apart =
      same_state w j db (do_op w id ops flags rq db).0
        (do_op-SameRows w id j vi vj apart ops flags rq db)

  cached_other :
      (ts : TenantState)
      → id ≢ j
      → get_cached_tenant_state_for j (reload_for_tenant mark_broken id ts n).0
        ≡ get_cached_tenant_state_for j n
  unfolding get_cached_tenant_state_for
  cached_other ts apart = ground (arith, reload_for_tenant_keeps mark_broken id ts n j apart)

  renewed-current :
      IsValid id
      → IsValid j
      → keeps_key db.states ≡ true
      → get_cached_tenant_state_for j n ≡ stored (get_tenant_state_for w.sf j db.states)
      → (do_op w id ops flags rq db).1 ≡ ok r
      → get_cached_tenant_state_for j (renewed mark_broken id n r.new_tenant_state)
        ≡ stored (get_tenant_state_for w.sf j tables)
  renewed-current vi vj key current done = elim (Bool-cases r.tenant_state_changed) [
    | inr same ↦ let (none_new, rows) = unchanged key done same in rw (none_new, rows) current
    | inl new ↦
        let (ts, given, found) = changed key done new in
        elim (id-cases id j) [
          | inl own ↦
              subst
                (λ t.
                  get_cached_tenant_state_for t (renewed mark_broken id n r.new_tenant_state)
                  ≡ stored (get_tenant_state_for w.sf t tables))
                own (rw given (rw found (reload_for_tenant_lem mark_broken id ts n).0))
          | inr apart ↦
              rw given (cached_other ts apart ∙ current ∙ ap stored (sym (other vi vj apart)))
        ]
  ]

module _ {R F V J A B : Type 0} (ch : Channel V J) (x : Surroundings R A B) (id j : TenantId)
    (ops : List (StateOp V)) (s s' : System R F J) (ret : SyscallRet V B) where
  fast_unchanged :
      (reqs : List FastStateReq)
      → from_ops ops ≡ ok reqs
      → state_syscall ch x id ops s ≡ (s', ok ret)
      → s' ≡ s
  unfolding state_syscall
  fast_unchanged reqs q h = ground (arith, q)

  -- What is left of the worker after the answer of the master
  slow_answered :
      (slow : List (StateOp V)) (resp : StateExecResponse V)
      → from_ops ops ≡ err slow
      → (client_exec_state_op ch id slow no_flags x.request s.db).1 ≡ ok resp
      → state_syscall ch x id ops s ≡ (s', ok ret)
      → s' ≡ record {
        node = renewed x.mark_broken id s.node resp.new_tenant_state;
        db = (client_exec_state_op ch id slow no_flags x.request s.db).0;
      }
  unfolding state_syscall
  slow_answered slow resp q p h = elim (Option-cases resp.new_tenant_state) [
    | inl e ↦ ground (arith, q, p, e)
    | inr (ts, e) ↦ ground (arith, q, p, e)
  ]

  not_answered :
      (slow : List (StateOp V)) (e : String)
      → from_ops ops ≡ err slow
      → (client_exec_state_op ch id slow no_flags x.request s.db).1 ≡ err e
      → state_syscall ch x id ops s ≡ (s', ok ret)
      → ⊥
  unfolding state_syscall
  not_answered slow e q p h = ground (arith, q, p)

  -- A syscall of one valid tenant for its state that is answered leaves, for every valid tenant whose cached state was the stored one, the cached state as the stored one, where the event rows keep their foreign key, and they still keep it.
  pub state_syscall-current :
      IsValid id
      → IsValid j
      → keeps_key s.db.states ≡ true
      → get_cached_tenant_state_for j s.node
        ≡ stored (get_tenant_state_for ch.world.sf j s.db.states)
      → state_syscall ch x id ops s ≡ (s', ok ret)
      → (keeps_key s'.db.states ≡ true)
        × (get_cached_tenant_state_for j s'.node
            ≡ stored (get_tenant_state_for ch.world.sf j s'.db.states))
  state_syscall-current vi vj key current h = elim (Result-cases (from_ops ops)) [
    | inl (reqs, q) ↦ rw (fast_unchanged reqs q h) (key, current)
    | inr (slow, q) ↦
        elim (Result-cases (client_exec_state_op ch id slow no_flags x.request s.db).1) [
          | inr (e, p) ↦ absurd (not_answered slow e q p h)
          | inl (resp, p) ↦
              let (run, r, done, arrived, rows) =
                client_exec_state_op-eq-ok ch id slow no_flags x.request s.db resp vi p in
              let given : r.new_tenant_state ≡ resp.new_tenant_state =
                ap (λ a. a.new_tenant_state) (sym (ch.received_response r) ∙ arrived) in
              rw (slow_answered slow resp q p h) (
                rw rows (
                  (do_op-Step ch.world id no_flags x.request run s.db r key done).0,
                  rw (sym given) (
                      renewed-current ch.world x.mark_broken id j s.node run no_flags x.request s.db
                        r vi vj key current done),
                ))
        ]
  ]
