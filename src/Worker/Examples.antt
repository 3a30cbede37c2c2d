-- ===== src/Worker/Examples.antt =====
-- A worker with concrete VMs: a runtime is a number, and so is a function.
use template_worker.Prelude.{
  ℕ, ◌≡◌, ◌≢◌, refl, String, true, false, none, Result, ok, err, [], ◌∷◌, arith, string_eq,
}
use template_worker.Prelude.Rows.{any}
use template_worker.Prelude.Dict.{get, insert}
use template_worker.Worker.Tenant.{user, guild, id_eq, worker_id}
use template_worker.Geese.TenantState.{TenantState}
use template_worker.Geese.State.Ops.{
  StateOp, no_flags, worker_flags, can_set_internal_scope, alters_tenant_state,
}
use template_worker.Geese.State.Tables.{KvLookup, kv}
use template_worker.Geese.State.Kv.{kv_set_op, put_kv, is_internal, blob_too_large}
use template_worker.Geese.State.Exec.{do_op, is_fastpath, apply_ops, apply_op, empty_response}
use template_worker.Geese.State.Examples.{small_world, small_db, quiet}
use template_worker.Mesophyll.Examples.{small_channel}
use template_worker.Worker.Node.{
  Luau, VmState, Node, get_cached_tenant_state_for, create_vm, get_vm_for,
}
use template_worker.Worker.Dispatch.{Event, System, Run, dispatch_event_complex}
use template_worker.Worker.Dispatch.Laws.{dispatch_event_complex-failed, saving, is_registered}

abbrev pub small_luau : Luau ℕ ℕ
small_luau = record {
  configure_runtime = ok 1;
  eval_templateloop = λ r. ok 2;
  call = λ f id ts. ok 3;
}

abbrev other_luau : Luau ℕ ℕ
other_luau = record small_luau { configure_runtime = err "out of memory" }

abbrev pub small_vm : VmState ℕ ℕ
small_vm = record { runtime = 1; dispatch_func = 3 }

abbrev pub message_state : TenantState
message_state = record {
  events = ("MESSAGE", "x" ∷ []) ∷ [];
  modflags = record { banned = false; can_manage_guild_commands = false };
}

abbrev banned_state : TenantState
banned_state = record message_state {
  modflags = record { banned = true; can_manage_guild_commands = false };
}

abbrev pub small_node : Node ℕ ℕ
small_node = record { vms = []; cache = (user 2, message_state) ∷ [] }

abbrev pub running_node : Node ℕ ℕ
running_node = record small_node { vms = (user 2, small_vm) ∷ [] }

abbrev pub small_system : System ℕ ℕ ℕ
small_system = record { node = small_node; db = small_db }

vm_made : get_vm_for small_luau (user 2) small_node ≡ (running_node, ok small_vm)
unfolding get_vm_for create_vm get insert
vm_made = refl

user≢guild : user 2 ≢ guild 5
user≢guild e = ground arith

abbrev pub mark_fails : ℕ → Result String (Unit {0})
mark_fails r = err "runtime is gone"

-- Every run fails. A number stands for a value, an error for the number 5.
abbrev pub failing : Run ℕ ℕ ℕ ℕ ℕ
failing = record {
  luau = small_luau;
  is_broken = λ r. false;
  mark_broken = mark_fails;
  run = λ vm ev s. (s, err "attempt to index nil");
  text = λ t. 5;
  null = 0;
  sample = "k";
  request = quiet;
}

abbrev pub event : String → Event ℕ
event name = record { name = name; author = none; payload = 0 }

registered : is_registered small_channel failing (user 2) (event "MESSAGE") small_system ≡ true
unfolding get_cached_tenant_state_for get
registered = refl

error_saved :
    (do_op small_world
      (user 2)
      (saving small_channel failing (user 2) "attempt to index nil")
      worker_flags
      quiet
      small_db).1
    ≡ ok empty_response
unfolding do_op is_fastpath apply_ops apply_op kv_set_op put_kv is_internal blob_too_large
    can_set_internal_scope alters_tenant_state any
error_saved = refl

dispatch_event_complex-failed_example :
    ((dispatch_event_complex small_channel failing (user 2) (event "MESSAGE") small_system).1
      ≡ err "attempt to index nil")
    × ((l : KvLookup ℕ) × ((do_op small_world
            (user 2)
            (StateOp.kv_get "k" "#err" ∷ [])
            no_flags
            quiet
            (dispatch_event_complex small_channel failing
              (user 2)
              (event "MESSAGE")
              small_system).0.db).1
          ≡ ok (record empty_response { results = kv l ∷ [] }))
        × (l.value ≡ 5))
unfolding worker_id
dispatch_event_complex-failed_example =
    dispatch_event_complex-failed small_channel failing (user 2) (event "MESSAGE") small_system
      (record { node = running_node; db = small_db }) running_node small_vm "attempt to index nil"
      empty_response (5 ∷ []) [] quiet registered vm_made refl refl (omega arith) refl refl refl
      refl refl error_saved refl
