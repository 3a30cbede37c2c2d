-- ===== src/Mesophyll/Server.antt =====
-- The master's side of src/mesophyll/server.rs: which worker may ask for what.
use template_worker.Prelude.{
  ℕ, String, Option, Result, ok, err, List, ltb, nat_beq, or_else, guard, ◌>>=◌, ◌>>◌,
  if◌then◌else◌,
}
use template_worker.Worker.Tenant.{TenantId, worker_id}
use template_worker.Geese.State.Ops.{StateOp, StateDbFlags, from_bits}
use template_worker.Geese.State.Tables.{World, Db, StateExecResponse, Error, message, sql}
use template_worker.Geese.State.Exec.{do_op, Request}
use template_worker.Mesophyll.Proto.{
  Status, internal, permission_denied, invalid_argument, Wire, PbId, to_real_id, from_real, to_real,
}

-- `WtmExecStateOp`
pub record ExecStateOp : Type 0 where
  pub worker_id : ℕ
  pub id : Option PbId
  pub state_op : Option (List ℕ)
  pub flags : ℕ

-- `to_string` of an error
abbrev pub error_text : Error → String
error_text (message t) = t
error_text (sql t) = t

-- The text of the status has the id in it, which is left out here.
unfoldable pub verify_worker : ℕ → ℕ → Result Status ℕ
verify_worker num_workers worker =
    if ltb num_workers worker
    then err (permission_denied "Invalid worker ID, exceeds number of workers in pool")
    else ok worker

-- What is asked for, once every check has passed
pub record Accepted (V : Type 0) : Type 0 where
  pub id : TenantId
  pub ops : List (StateOp V)
  pub flags : StateDbFlags

module _ {V J : Type 0} (w : World V J) (num_workers : ℕ) (ops_wire : Wire (List (StateOp V)))
    (response_wire : Wire (StateExecResponse V)) where
  unfoldable pub accept : ExecStateOp → Result Status (Accepted V)
  unfolding verify_worker to_real
  accept req = do
    wid ← verify_worker num_workers req.worker_id
    pb_id ← or_else req.id (invalid_argument "Missing ID")
    let id = to_real_id pb_id
    guard (nat_beq (worker_id w.sf id num_workers) wid)
        (internal "ID expected worker_id and actual worker_id mismatched")
    payload ← or_else req.state_op (invalid_argument "Missing state_op")
    ops ← to_real ops_wire payload
    flags ← or_else (from_bits req.flags) (invalid_argument "Invalid flags")
    ok (record { id = id; ops = ops; flags = flags })

  abbrev reply : Result Error (StateExecResponse V) → Result Status (List ℕ)
  reply (ok resp) = from_real response_wire resp
  reply (err e) = err (internal (error_text e))

  -- A status that comes before the operations leaves the database alone.
  abbrev run_accepted : Request → Db J → Result Status (Accepted V) → Db J × Result Status (List ℕ)
  run_accepted rq db (err s) = (db, err s)
  run_accepted rq db (ok a) = let out = do_op w a.id a.ops a.flags rq db in (out.0, reply out.1)

  unfoldable pub exec_state_op : ExecStateOp → Request → Db J → Db J × Result Status (List ℕ)
  unfolding accept
  exec_state_op req rq db = run_accepted rq db (accept req)
