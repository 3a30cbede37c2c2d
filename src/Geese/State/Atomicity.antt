-- ===== src/Geese/State/Atomicity.antt =====
-- Errors leave the database as it was, with and without a transaction.
use template_worker.Prelude.{
  ℕ, suc, ◌≡◌, ◌∙◌, refl, inl, inr, true, false, String, Option, none, some, ok, err, List, [], ◌∷◌,
  arith, Bool-cases, Result-cases, if◌then◌else◌,
}
use template_worker.Worker.Tenant.{TenantId}
use template_worker.Geese.TenantState.{get_tenant_state_for}
use template_worker.Geese.State.Ops.{StateOp, StateDbFlags, alters_tenant_state}
use template_worker.Geese.State.Tables.{
  World, Db, StateExecResult, StateExecResponse, Error, Call, push_all, statement, answer,
}
use template_worker.Geese.State.Kv.{
  kv_find_op, kv_get_op, kv_get_with_blob_op, kv_sign_url_op, kv_set_op, kv_delete_op,
}
use template_worker.Geese.State.Global.{
  global_kv_find_op, global_kv_get_op, global_kv_get_data_op, global_kv_create_op,
  global_kv_delete_op, insert_global, delete_global,
}
use template_worker.Geese.State.Events.{subscribe_event_op, unsubscribe_event_op}
use template_worker.Geese.State.Exec.{
  apply_op, call_at, apply_ops, is_fastpath, do_op, Request, empty_response,
}

-- What a read leaves alone in the answer.
abbrev pub SameState : {V : Type 0} → StateExecResponse V → StateExecResponse V → Type 0
SameState r s =
    (s.tenant_state_changed ≡ r.tenant_state_changed) × (s.new_tenant_state ≡ r.new_tenant_state)

pub push_all-SameState :
    {V : Type 0} (rs : List (StateExecResult V)) (resp : StateExecResponse V)
    → SameState resp (push_all rs resp)
unfolding push_all
push_all-SameState [] resp = (refl, refl)
push_all-SameState (r ∷ rs) resp = push_all-SameState rs _

read-SameState :
    {V J : Type 0} (fault : Option String) (db : Db J) (resp resp' : StateExecResponse V)
    (rs : Option (List (StateExecResult V)))
    → (statement fault db (answer db resp rs)).1 ≡ ok resp'
    → SameState resp resp'
read-SameState none db resp resp' none h = absurd (ground arith)
read-SameState none db resp resp' (some rs) h = ground (arith, push_all-SameState rs resp)
read-SameState (some e) db resp resp' rs h = absurd (ground arith)

module _ {V J : Type 0} (w : World V J) (c : Call) where
  -- An operation that fails has written nothing.
  pub apply_op-err :
      (op : StateOp V) (db : Db J) (resp : StateExecResponse V) (e : Error)
      → (apply_op w c op db resp).1 ≡ err e
      → (apply_op w c op db resp).0 ≡ db
  unfolding apply_op kv_find_op kv_get_op kv_get_with_blob_op kv_sign_url_op kv_set_op kv_delete_op
      global_kv_find_op global_kv_get_op global_kv_get_data_op global_kv_create_op
      global_kv_delete_op insert_global delete_global subscribe_event_op unsubscribe_event_op
  apply_op-err (StateOp.kv_find q s) db resp e h = ground arith
  apply_op-err _ db resp e h = ground arith

  -- Only the subscriptions say that they changed the tenant's state.
  pub apply_op-SameState :
      (op : StateOp V) (db : Db J) (resp resp' : StateExecResponse V)
      → alters_tenant_state op ≡ false
      → (apply_op w c op db resp).1 ≡ ok resp'
      → SameState resp resp'
  unfolding apply_op alters_tenant_state kv_find_op kv_get_op kv_get_with_blob_op kv_sign_url_op
      kv_set_op kv_delete_op global_kv_find_op global_kv_get_op global_kv_get_data_op
      global_kv_create_op global_kv_delete_op insert_global delete_global
  apply_op-SameState (StateOp.kv_find q s) db resp resp' a h =
      read-SameState c.fault db resp resp' _ h
  apply_op-SameState (StateOp.kv_get k s) db resp resp' a h =
      read-SameState c.fault db resp resp' _ h
  apply_op-SameState (StateOp.kv_get_with_blob k s) db resp resp' a h =
      read-SameState c.fault db resp resp' _ h
  apply_op-SameState (StateOp.global_kv_find q s) db resp resp' a h =
      read-SameState c.fault db resp resp' _ h
  apply_op-SameState (StateOp.global_kv_get k v s) db resp resp' a h =
      read-SameState c.fault db resp resp' _ h
  apply_op-SameState (StateOp.global_kv_get_data k v s) db resp resp' a h =
      read-SameState c.fault db resp resp' _ h
  apply_op-SameState _ db resp resp' a h = ground arith

  -- A failing subscription or not, the new state is left to `do_op`.
  pub apply_op-new_tenant_state :
      (op : StateOp V) (db : Db J) (resp resp' : StateExecResponse V)
      → (apply_op w c op db resp).1 ≡ ok resp'
      → resp'.new_tenant_state ≡ resp.new_tenant_state
  unfolding apply_op subscribe_event_op unsubscribe_event_op alters_tenant_state
  apply_op-new_tenant_state (StateOp.subscribe_event e s) db resp resp' h = ground arith
  apply_op-new_tenant_state (StateOp.unsubscribe_event e s) db resp resp' h = ground arith
  apply_op-new_tenant_state op db resp resp' h = (apply_op-SameState op db resp resp' refl h).1

module _ {V J : Type 0} (w : World V J) (tid : TenantId) (flags : StateDbFlags) (rq : Request) where
  apply_ops-new_tenant_state :
      (i : ℕ) (ops : List (StateOp V)) (db : Db J) (resp resp' : StateExecResponse V)
      → (apply_ops w tid flags rq i ops db resp).1 ≡ ok resp'
      → resp'.new_tenant_state ≡ resp.new_tenant_state
  unfolding apply_ops
  apply_ops-new_tenant_state i [] db resp resp' h = ground arith
  apply_ops-new_tenant_state i (op ∷ ops) db resp resp' h =
      let out = apply_op w (call_at w tid flags rq i) op db resp in
      elim (Result-cases out.1) [
        | inr (e, q) ↦ absurd (ground (arith, q))
        | inl (r, q) ↦ ground (
          arith,
          q,
          apply_ops-new_tenant_state (suc i) ops out.0 r resp',
          apply_op-new_tenant_state w (call_at w tid flags rq i) op db resp r q,
        )
      ]

  -- On the fast path the operations run as they are: the check for a changed tenant state never fails.
  pub do_op-is_fastpath :
      (ops : List (StateOp V)) (db : Db J)
      → is_fastpath w ops ≡ true
      → do_op w tid ops flags rq db ≡ apply_ops w tid flags rq 0 ops db empty_response
  unfolding do_op is_fastpath apply_ops
  do_op-is_fastpath [] db h = refl
  do_op-is_fastpath (op ∷ []) db h =
      let out = apply_op w (call_at w tid flags rq 0) op db empty_response in
      elim (Result-cases out.1) [
        | inr (e, q) ↦ ground (arith, q)
        | inl (r, q) ↦
            ground
              (arith, q, apply_op-SameState w (call_at w tid flags rq 0) op db empty_response r)
      ]
  do_op-is_fastpath (op ∷ op' ∷ ops) db h = absurd (ground arith)

  fast-err :
      (ops : List (StateOp V)) (db : Db J) (e : Error)
      → is_fastpath w ops ≡ true
      → (apply_ops w tid flags rq 0 ops db empty_response).1 ≡ err e
      → (apply_ops w tid flags rq 0 ops db empty_response).0 ≡ db
  unfolding is_fastpath apply_ops
  fast-err [] db e f h = refl
  fast-err (op ∷ []) db e f h =
      ground (arith, apply_op-err w (call_at w tid flags rq 0) op db empty_response e)
  fast-err (op ∷ op' ∷ ops) db e f h = absurd (ground arith)

  fast-SameState :
      (ops : List (StateOp V)) (db : Db J) (resp : StateExecResponse V)
      → is_fastpath w ops ≡ true
      → (apply_ops w tid flags rq 0 ops db empty_response).1 ≡ ok resp
      → SameState empty_response resp
  unfolding is_fastpath apply_ops
  fast-SameState [] db resp f h = ground arith
  fast-SameState (op ∷ []) db resp f h =
      ground (arith, apply_op-SameState w (call_at w tid flags rq 0) op db empty_response resp)
  fast-SameState (op ∷ op' ∷ ops) db resp f h = absurd (ground arith)

  slow-err :
      (ops : List (StateOp V)) (db : Db J) (e : Error)
      → is_fastpath w ops ≡ false
      → (do_op w tid ops flags rq db).1 ≡ err e
      → (do_op w tid ops flags rq db).0 ≡ db
  unfolding do_op
  slow-err ops db e slow h = ground arith

  slow-new_tenant_state :
      (ops : List (StateOp V)) (db : Db J) (resp : StateExecResponse V)
      → is_fastpath w ops ≡ false
      → (do_op w tid ops flags rq db).1 ≡ ok resp
      → resp.new_tenant_state ≡ (
          if resp.tenant_state_changed
          then get_tenant_state_for w.sf tid (do_op w tid ops flags rq db).0.states
          else none)
  unfolding do_op
  slow-new_tenant_state ops db resp slow h =
      let out = apply_ops w tid flags rq 0 ops db empty_response in
      elim (Result-cases out.1) [
        | inr (e, q) ↦ absurd (ground (arith, q))
        | inl (r, q) ↦ ground (arith, q, apply_ops-new_tenant_state 0 ops db empty_response r)
      ]

  -- Atomicity: a list of operations that fails, by a refused operation or by an error of the database, has changed nothing.
  pub do_op-err :
      (ops : List (StateOp V)) (db : Db J) (e : Error)
      → (do_op w tid ops flags rq db).1 ≡ err e
      → (do_op w tid ops flags rq db).0 ≡ db
  do_op-err ops db e h = elim (Bool-cases (is_fastpath w ops)) [
    | inl fast ↦
        rw (do_op-is_fastpath ops db fast)
          (fast-err ops db e fast (rw (do_op-is_fastpath ops db fast) at h))
    | inr slow ↦ slow-err ops db e slow h
  ]

  -- A new tenant state is given exactly when an operation changed it, and is what the tables then hold.
  pub do_op-new_tenant_state :
      (ops : List (StateOp V)) (db : Db J) (resp : StateExecResponse V)
      → (do_op w tid ops flags rq db).1 ≡ ok resp
      → resp.new_tenant_state ≡ (
          if resp.tenant_state_changed
          then get_tenant_state_for w.sf tid (do_op w tid ops flags rq db).0.states
          else none)
  do_op-new_tenant_state ops db resp h = elim (Bool-cases (is_fastpath w ops)) [
    | inl fast ↦
        ground (arith, fast-SameState ops db resp fast (rw (do_op-is_fastpath ops db fast) at h))
    | inr slow ↦ slow-new_tenant_state ops db resp slow h
  ]

  single_is_fastpath :
      (op : StateOp V) → alters_tenant_state op ≡ false → is_fastpath w (op ∷ []) ≡ true
  unfolding is_fastpath
  single_is_fastpath op h = ground arith

  apply_ops-single :
      (op : StateOp V) (db : Db J)
      → apply_ops w tid flags rq 0 (op ∷ []) db empty_response
        ≡ apply_op w (call_at w tid flags rq 0) op db empty_response
  unfolding apply_ops
  apply_ops-single op db = ground arith

  -- A single operation that is no subscription runs by itself.
  pub do_op-single :
      (op : StateOp V) (db : Db J)
      → alters_tenant_state op ≡ false
      → do_op w tid (op ∷ []) flags rq db
        ≡ apply_op w (call_at w tid flags rq 0) op db empty_response
  do_op-single op db h =
      do_op-is_fastpath (op ∷ []) db (single_is_fastpath op h) ∙ apply_ops-single op db
