-- ===== src/Mesophyll/Examples.antt =====
-- A channel whose wires carry two requests and two answers.
use template_worker.Prelude.{
  ℕ, ◌≡◌, ◌↔◌, refl, String, Bool, true, false, ◌&&◌, not, Option, none, some, Result, ok, err,
  List, [], ◌∷◌, arith, str_beq, eq_iff, Eq, ◌==◌, string_eq, pair_eq, if◌then◌else◌, ◌⊎◌,
}
use template_worker.Worker.Tenant.{user, worker_id}
use template_worker.Geese.TenantState.{TenantState}
use template_worker.Geese.State.Ops.{
  bits, StateOp, worker_flags, from_bits, can_set_internal_scope, alters_tenant_state,
}
use template_worker.Geese.State.Tables.{StateExecResult, StateExecResponse}
use template_worker.Prelude.Rows.{any}
use template_worker.Geese.State.Exec.{empty_response, do_op, is_fastpath, apply_ops, apply_op}
use template_worker.Geese.State.Kv.{kv_set_op, put_kv, is_internal, blob_too_large}
use template_worker.Geese.State.Examples.{small_world, small_db, quiet}
use template_worker.Mesophyll.Proto.{
  from_real_exec, to_real_exec, from_real_id, Status, internal, permission_denied, invalid_argument,
  user_type, to_real_id, to_real, from_real,
}
use template_worker.Mesophyll.Server.{ExecStateOp, Accepted, accept, verify_worker, exec_state_op}
use template_worker.Mesophyll.Routing.{IsAccepted, exec_state_op-cases, client_exec_state_op-ok}
use template_worker.Mesophyll.Client.{Channel, client_exec_state_op}

module _ {ℓ} {A : Type ℓ} ⦃e : Eq A⦄ where
  abbrev pub list_beq : List A → List A → Bool
  list_beq [] [] = true
  list_beq (a ∷ as') (b ∷ bs) = a == b && list_beq as' bs
  list_beq _ _ = false

  pub list_beq_iff : (a b : List A) → (list_beq a b ≡ true) ↔ (a ≡ b)
  list_beq_iff [] [] = ground arith
  list_beq_iff [] (b ∷ bs) = ground arith
  list_beq_iff (a ∷ as') [] = ground arith
  list_beq_iff (a ∷ as') (b ∷ bs) = ground (arith, e.beq_iff a b, list_beq_iff as' bs)

  instance abbrev pub list_eq : Eq (List A)
  list_eq = record { beq = list_beq; beq_iff = list_beq_iff }

-- The state of `user 2` on the small tables once it has subscribed to "GUILD"
abbrev pub subscribed_state : TenantState
subscribed_state = record {
  events = ("GUILD", "x" ∷ []) ∷ ("MESSAGE", "x" ∷ []) ∷ [];
  modflags = record { banned = false; can_manage_guild_commands = false };
}

abbrev pub is_subscribed_state : TenantState → Bool
is_subscribed_state ts =
    ts.events == subscribed_state.events
    && not ts.modflags.banned
    && not ts.modflags.can_manage_guild_commands

is_subscribed_state-eq : (ts : TenantState) → is_subscribed_state ts ≡ true → ts ≡ subscribed_state
is_subscribed_state-eq ts h = ground (arith, list_beq_iff ts.events subscribed_state.events)

abbrev pub encode_ops : List (StateOp ℕ) → Result String (List ℕ)
encode_ops (StateOp.subscribe_event event system ∷ []) =
    if str_beq event "GUILD" && str_beq system "x" then ok [] else err "unsupported"
encode_ops (StateOp.kv_set key scope value none ∷ []) =
    if str_beq key "k" && str_beq scope "#err" then ok (value ∷ []) else err "unsupported"
encode_ops _ = err "unsupported"

abbrev pub decode_ops : List ℕ → Result String (List (StateOp ℕ))
decode_ops [] = ok (StateOp.subscribe_event "GUILD" "x" ∷ [])
decode_ops (value ∷ []) = ok (StateOp.kv_set "k" "#err" value none ∷ [])
decode_ops _ = err "unsupported"

pub decode_ops-encode_ops :
    (ops : List (StateOp ℕ)) (b : List ℕ) → encode_ops ops ≡ ok b → decode_ops b ≡ ok ops
decode_ops-encode_ops [] b h = absurd (ground arith)
decode_ops-encode_ops (StateOp.subscribe_event event system ∷ []) b h =
    ground (arith, eq_iff event "GUILD", eq_iff system "x")
decode_ops-encode_ops (StateOp.kv_set key scope value none ∷ []) b h =
    ground (arith, eq_iff key "k", eq_iff scope "#err")
decode_ops-encode_ops (StateOp.kv_set key scope value (some blob) ∷ []) b h = absurd (ground arith)
decode_ops-encode_ops (_ ∷ []) b h = absurd (ground arith)
decode_ops-encode_ops (_ ∷ _ ∷ _) b h = absurd (ground arith)

abbrev pub encode_state : List (StateExecResult ℕ) → Option TenantState → Result String (List ℕ)
encode_state (r ∷ rs) n = err "unsupported"
encode_state [] none = ok []
encode_state [] (some ts) = if is_subscribed_state ts then ok (1 ∷ []) else err "unsupported"

abbrev pub encode_response : StateExecResponse ℕ → Result String (List ℕ)
encode_response r = encode_state r.results r.new_tenant_state

abbrev pub decode_response : List ℕ → Result String (StateExecResponse ℕ)
decode_response [] = ok empty_response
decode_response (n ∷ ns) = ok (record empty_response { new_tenant_state = some subscribed_state })

decode_response-encode_state :
    (rs : List (StateExecResult ℕ)) (n : Option TenantState) (b : List ℕ)
    → encode_state rs n ≡ ok b
    → decode_response b
      ≡ ok (record { results = rs; tenant_state_changed = false; new_tenant_state = n })
decode_response-encode_state (r ∷ rs) n b h = absurd (ground arith)
decode_response-encode_state [] none b h = ground arith
decode_response-encode_state [] (some ts) b h = ground (arith, is_subscribed_state-eq ts)

pub decode_response-encode_response :
    (r : StateExecResponse ℕ) (b : List ℕ)
    → encode_response r ≡ ok b
    → decode_response b ≡ ok (record r { tenant_state_changed = false })
decode_response-encode_response r b h =
    decode_response-encode_state r.results r.new_tenant_state b h

abbrev pub text_of : Status → String
text_of (internal t) = t
text_of (permission_denied t) = t
text_of (invalid_argument t) = t

abbrev pub small_channel : Channel ℕ ℕ
small_channel = record {
  world = small_world;
  num_workers = 2;
  worker_id = 0;
  ops_wire = record {
    to_vec = encode_ops;
    from_slice = decode_ops;
    received = λ ops. ops;
    from_slice-to_vec = decode_ops-encode_ops;
  };
  response_wire = record {
    to_vec = encode_response;
    from_slice = decode_response;
    received = λ r. record r { tenant_state_changed = false };
    from_slice-to_vec = decode_response-encode_response;
  };
  status_text = text_of;
  received_response = λ r. refl;
}

abbrev err_write : List (StateOp ℕ)
err_write = StateOp.kv_set "k" "#err" 5 none ∷ []

write_done :
    (do_op small_world (user 2) err_write worker_flags quiet small_db).1 ≡ ok empty_response
unfolding do_op is_fastpath apply_ops apply_op kv_set_op put_kv is_internal blob_too_large
    can_set_internal_scope alters_tenant_state any
write_done = refl

client_exec_state_op-ok_example :
    client_exec_state_op small_channel (user 2) err_write worker_flags quiet small_db
    ≡ ((do_op small_world (user 2) err_write worker_flags quiet small_db).0, ok empty_response)
unfolding worker_id
client_exec_state_op-ok_example =
    client_exec_state_op-ok small_channel (user 2) err_write worker_flags quiet small_db
      empty_response (5 ∷ []) [] (omega arith) refl refl refl refl refl write_done

abbrev call : ExecStateOp
call = record {
  worker_id = 0;
  id = some (record { tenant_id = 2; tenant_type = user_type });
  state_op = some (5 ∷ []);
  flags = 2;
}

exec_state_op-cases_example :
    ((s : Status) × (exec_state_op small_world 2 small_channel.ops_wire small_channel.response_wire
          call quiet small_db
        ≡ (small_db, err s)))
    ⊎ ((a : Accepted ℕ) × IsAccepted small_world 2 small_channel.ops_wire
          small_channel.response_wire call a
        × ((exec_state_op small_world 2 small_channel.ops_wire small_channel.response_wire call
              quiet small_db).0
            ≡ (do_op small_world a.id a.ops a.flags quiet small_db).0))
exec_state_op-cases_example =
    exec_state_op-cases small_world 2 small_channel.ops_wire small_channel.response_wire call quiet
      small_db

call_answered :
    (exec_state_op small_world 2 small_channel.ops_wire small_channel.response_wire call quiet
      small_db).1
    ≡ ok []
unfolding exec_state_op accept verify_worker to_real_id to_real from_real from_bits worker_id do_op
    is_fastpath apply_ops apply_op kv_set_op put_kv is_internal blob_too_large
    can_set_internal_scope alters_tenant_state any
call_answered = refl

call_returns :
    (client_exec_state_op small_channel (user 2) err_write worker_flags quiet small_db).1
    ≡ ok empty_response
unfolding client_exec_state_op from_real_exec from_real_id exec_state_op accept verify_worker
    to_real_id to_real from_real to_real_exec from_bits bits worker_id do_op is_fastpath apply_ops
    apply_op kv_set_op put_kv is_internal blob_too_large can_set_internal_scope alters_tenant_state
    any
call_returns = refl
