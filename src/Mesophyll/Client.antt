-- ===== src/Mesophyll/Client.antt =====
-- The worker's side of src/mesophyll/client.rs: `exec_state_op`, answered by the master over a channel.
use template_worker.Prelude.{ℕ, ◌≡◌, false, String, some, Result, ok, err, List, map_err, ◌>>=◌}
use template_worker.Worker.Tenant.{TenantId}
use template_worker.Geese.State.Ops.{StateOp, StateDbFlags, bits}
use template_worker.Geese.State.Tables.{World, Db, StateExecResponse}
use template_worker.Geese.State.Exec.{Request}
use template_worker.Mesophyll.Proto.{Status, Wire, from_real_id, from_real_exec, to_real_exec}
use template_worker.Mesophyll.Server.{ExecStateOp, exec_state_op}

-- What a worker is connected with: its id, and the text of a status (crate tonic). Of a response,
-- `tenant_state_changed` is marked `serde(skip)`.
pub record Channel (V J : Type 0) : Type 0 where
  pub world : World V J
  pub num_workers : ℕ
  pub worker_id : ℕ
  pub ops_wire : Wire (List (StateOp V))
  pub response_wire : Wire (StateExecResponse V)
  pub status_text : Status → String
  pub received_response :
      (r : StateExecResponse V)
      → response_wire.received r ≡ record r { tenant_state_changed = false }

module _ {V J : Type 0} (ch : Channel V J) where
  abbrev pub request_of : TenantId → List ℕ → StateDbFlags → ExecStateOp
  request_of id payload flags = record {
    worker_id = ch.worker_id;
    id = some (from_real_id id);
    state_op = some payload;
    flags = bits flags;
  }

  abbrev receive : Result Status (List ℕ) → Result String (StateExecResponse V)
  receive r = do bytes ← map_err ch.status_text r; to_real_exec ch.response_wire bytes

  abbrev send :
      TenantId
      → StateDbFlags
      → Request
      → Db J
      → Result String (List ℕ)
      → Db J × Result String (StateExecResponse V)
  send id flags rq db (err e) = (db, err e)
  send id flags rq db (ok payload) =
      let out =
        exec_state_op ch.world ch.num_workers ch.ops_wire ch.response_wire
          (request_of id payload flags) rq db in
      (out.0, receive out.1)

  -- `MesophyllClient::exec_state_op`, while the connection stands
  unfoldable pub client_exec_state_op :
      TenantId
      → List (StateOp V)
      → StateDbFlags
      → Request
      → Db J
      → Db J × Result String (StateExecResponse V)
  unfolding from_real_exec exec_state_op
  client_exec_state_op id ops flags rq db = send id flags rq db (from_real_exec ch.ops_wire ops)
