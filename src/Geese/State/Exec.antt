-- ===== src/Geese/State/Exec.antt =====
-- `apply_op`, `do_op` and `FastStateReq::execute` of src/geese/state.rs. A list of operations that
-- is run without a transaction is run on the tables themselves; with a transaction it is run on
-- a copy that replaces the tables when the transaction is committed.
use template_worker.Prelude.{
  ℕ, suc, Bool, false, ◌&&◌, not, String, Option, none, some, Result, ok, err, List, [], ◌∷◌, leb,
  if◌then◌else◌,
}
use template_worker.Prelude.Rows.{length, any}
use template_worker.Worker.Tenant.{TenantId}
use template_worker.Geese.Urlsign.{create_url}
use template_worker.Geese.TenantState.{get_tenant_state_for}
use template_worker.Geese.State.Ops.{StateOp, StateDbFlags, FastStateReq, alters_tenant_state}
use template_worker.Geese.State.Tables.{
  World, Db, StateExecResult, kv_sign_url, StateExecResponse, Error, message, sql, Call, Outcome,
}
use template_worker.Geese.State.Kv.{
  kv_find_op, kv_get_op, kv_get_with_blob_op, kv_sign_url_op, kv_set_op, kv_delete_op,
  kv_sign_url_expiration_seconds,
}
use template_worker.Geese.State.Global.{
  global_kv_find_op, global_kv_get_op, global_kv_get_data_op, global_kv_create_op,
  global_kv_delete_op,
}
use template_worker.Geese.State.Events.{subscribe_event_op, unsubscribe_event_op}

-- What one call of `do_op` meets: the time, the random row ids, and the errors of the driver. The
-- operation at position i is run with `samples i` and `faults i`.
pub record Request : Type 0 where
  pub now : ℕ
  pub samples : ℕ → String
  pub faults : ℕ → Option String
  pub begin_fault : Option String
  pub reload_fault : Option String
  pub commit_fault : Option String

abbrev pub empty_response : {V : Type 0} → StateExecResponse V
empty_response = record { results = []; tenant_state_changed = false; new_tenant_state = none }

module _ {V J : Type 0} (w : World V J) where
  unfoldable pub apply_op : Call → StateOp V → Db J → StateExecResponse V → Outcome V J
  apply_op c (StateOp.kv_find query scope) = kv_find_op w c query scope
  apply_op c (StateOp.kv_get key scope) = kv_get_op w c key scope
  apply_op c (StateOp.kv_get_with_blob key scope) = kv_get_with_blob_op w c key scope
  apply_op c (StateOp.kv_sign_url key scope) = kv_sign_url_op w c key scope
  apply_op c (StateOp.kv_set key scope value blob) = kv_set_op w c key scope value blob
  apply_op c (StateOp.kv_delete key scope) = kv_delete_op w c key scope
  apply_op c (StateOp.global_kv_find query scope) = global_kv_find_op w c query scope
  apply_op c (StateOp.global_kv_get key version scope) = global_kv_get_op w c key version scope
  apply_op c (StateOp.global_kv_create n) = global_kv_create_op w c n
  apply_op c (StateOp.global_kv_delete key version scope) =
      global_kv_delete_op w c key version scope
  apply_op c (StateOp.global_kv_get_data key version scope) =
      global_kv_get_data_op w c key version scope
  apply_op c (StateOp.subscribe_event event system) = subscribe_event_op w c event system
  apply_op c (StateOp.unsubscribe_event event system) = unsubscribe_event_op w c event system

  abbrev pub call_at : TenantId → StateDbFlags → Request → ℕ → Call
  call_at tid flags rq i = record {
    tid = tid;
    flags = flags;
    now = rq.now;
    sample = rq.samples i;
    fault = rq.faults i;
  }

  -- The loop over the operations, from position i on: an error ends it.
  unfoldable pub apply_ops :
      TenantId
      → StateDbFlags
      → Request
      → ℕ
      → List (StateOp V)
      → Db J
      → StateExecResponse V
      → Outcome V J
  apply_ops tid flags rq i [] db resp = (db, ok resp)
  apply_ops tid flags rq i (op ∷ ops) db resp =
      let out = apply_op (call_at tid flags rq i) op db resp in
      elim out.1 [
        | ok resp' ↦ apply_ops tid flags rq (suc i) ops out.0 resp'
        | err e ↦ (out.0, err e)
      ]

  -- `op.len() <= 1 && op.iter().all(|x| !x.alters_tenant_state())`
  unfoldable pub is_fastpath : List (StateOp V) → Bool
  unfolding alters_tenant_state any
  is_fastpath ops = leb (length ops) 1 && not (any alters_tenant_state ops)

  abbrev pub check_unchanged : Outcome V J → Outcome V J
  check_unchanged (db, err e) = (db, err e)
  check_unchanged (db, ok resp) =
      if resp.tenant_state_changed
      then (db, err (message "internal error: tenant state changed in unsupported fastpath"))
      else (db, ok resp)

  abbrev or_fault :
      Option String → Result Error (StateExecResponse V) → Result Error (StateExecResponse V)
  or_fault none r = r
  or_fault (some e) r = err (sql e)

  -- The tenant state as the transaction sees it, if an operation changed it
  abbrev pub reload :
      TenantId → Request → Db J → StateExecResponse V → Result Error (StateExecResponse V)
  reload tid rq db resp =
      if resp.tenant_state_changed
      then or_fault rq.reload_fault
          (ok (record resp { new_tenant_state = get_tenant_state_for w.sf tid db.states }))
      else ok resp

  abbrev pub commit : Request → Db J → Db J → Result Error (StateExecResponse V) → Outcome V J
  commit rq old new (err e) = (old, err e)
  commit rq old new (ok resp) = elim rq.commit_fault [
    | none ↦ (new, ok resp)
    | some e ↦ (old, err (sql e))
  ]

  -- A transaction that is dropped before `commit` is rolled back.
  abbrev pub finish : TenantId → Request → Db J → Outcome V J → Outcome V J
  finish tid rq old (new, err e) = (old, err e)
  finish tid rq old (new, ok resp) = commit rq old new (reload tid rq new resp)

  unfoldable pub do_op : TenantId → List (StateOp V) → StateDbFlags → Request → Db J → Outcome V J
  unfolding is_fastpath
  do_op tid ops flags rq db =
      let out = apply_ops tid flags rq 0 ops db empty_response in
      if is_fastpath ops
      then check_unchanged out
      else elim rq.begin_fault [ none ↦ finish tid rq db out | some e ↦ (db, err (sql e)) ]

  abbrev push_fast_url :
      Result String String
      → Result Error (List (StateExecResult V))
      → Result Error (List (StateExecResult V))
  push_fast_url (err e) rest = err (message e)
  push_fast_url (ok url) (err e) = err e
  push_fast_url (ok url) (ok rs) = ok (kv_sign_url url kv_sign_url_expiration_seconds ∷ rs)

  -- `FastStateReq::execute`, on a worker
  unfoldable pub execute_fast :
      ℕ → TenantId → List FastStateReq → Result Error (List (StateExecResult V))
  execute_fast now tid [] = ok []
  execute_fast now tid (FastStateReq.kv_sign_url key scope ∷ reqs) =
      let rest = execute_fast now tid reqs in
      push_fast_url
        (create_url w.sf w.crypto w.url_codec w.cfg now tid key scope
          kv_sign_url_expiration_seconds)
        rest
