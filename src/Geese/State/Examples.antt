-- ===== src/Geese/State/Examples.antt =====
-- The operations of the stores on small tables. A value is a number, which is its own JSON.
use template_worker.Prelude.{
  ℕ, ◌≡◌, ◌≢◌, refl, sym, true, none, some, ok, err, List, [], ◌∷◌, arith, string_eq, str_beq,
}
use template_worker.Prelude.Int.{pos}
use template_worker.Prelude.Rows.{select, any, upsert, update}
use template_worker.Worker.Tenant.{user, guild}
use template_worker.Worker.Tenant.Examples.{unary}
use template_worker.Geese.Signing.Examples.{plain, sample_config}
use template_worker.Geese.Urlsign.Examples.{sample_codec}
use template_worker.Geese.State.Ops.{
  StateOp, FastStateReq, no_flags, from_ops, is_faststate_eligible, convert_ops,
  alters_tenant_state, can_set_internal_scope, can_delete_internal_scope,
}
use template_worker.Geese.State.Tables.{World, KvRow, GlobalRow, Db, message}
use template_worker.Geese.State.Kv.{
  is_internal, blob_too_large, at_key, kv_set_op, kv_delete_op, put_kv,
}
use template_worker.Geese.State.Exec.{
  Request, empty_response, apply_op, apply_ops, is_fastpath, do_op, execute_fast,
}
use template_worker.Geese.State.Atomicity.{do_op-err}
use template_worker.Geese.State.Scopes.{do_op-protected, is_protected}
use template_worker.Geese.State.Isolation.{SameRows, do_op-SameRows}
use template_worker.Geese.State.Fast.{do_op-from_ops, extend_by}

pub same_json : (v j : ℕ) → some v ≡ some j → some j ≡ some v
same_json v j h = sym h

abbrev pub small_world : World ℕ ℕ
small_world = record {
  sf = unary;
  crypto = plain;
  url_codec = sample_codec;
  cfg = sample_config;
  to_json = λ n. some n;
  from_json = λ n. some n;
  like = str_beq;
  default_review_state = "pending";
  from_json-to_json = same_json;
}

abbrev pub quiet : Request
quiet = record {
  now = 100;
  samples = λ i. "id";
  faults = λ i. none;
  begin_fault = none;
  reload_fault = none;
  commit_fault = none;
}

abbrev error_row : KvRow ℕ
error_row = record {
  id = "a";
  owner_id = "11";
  owner_type = "user";
  key = "k";
  scope = "#secret";
  value = 3;
  blob = none;
  created_at = 1;
  last_updated_at = 1;
}

abbrev shared_row : GlobalRow ℕ
shared_row = record {
  id = "g";
  key = "shop";
  version = pos 1;
  owner_id = "11";
  owner_type = "user";
  price = none;
  short = "";
  public_metadata = 0;
  scope = "s";
  created_at = 1;
  last_updated_at = 1;
  public_data = true;
  review_state = "approved";
  long = none;
  value = 9;
}

abbrev pub small_db : Db ℕ
small_db = record {
  tenant_kv = error_row ∷ [];
  global_kv = shared_row ∷ [];
  states = record {
    tenant_state = record { owner_id = "11"; owner_type = "user"; modflags = pos 0 } ∷ [];
    tenant_state_events =
        record { owner_id = "11"; owner_type = "user"; event = "MESSAGE"; system = "x" } ∷ [];
  };
}

-- The second operation is refused.
abbrev half_refused : List (StateOp ℕ)
half_refused = StateOp.kv_set "k" "s" 5 none ∷ StateOp.kv_delete "k" "#secret" ∷ []

refused_half :
    (do_op small_world (user 2) half_refused no_flags quiet small_db).1
    ≡ err (message "Cannot write to this internal scope")
unfolding do_op is_fastpath apply_ops apply_op kv_set_op kv_delete_op put_kv upsert any update
    is_internal blob_too_large can_set_internal_scope can_delete_internal_scope at_key
    alters_tenant_state
refused_half = refl

do_op-err_example : (do_op small_world (user 2) half_refused no_flags quiet small_db).0 ≡ small_db
do_op-err_example =
    do_op-err small_world (user 2) no_flags quiet half_refused small_db
      (message "Cannot write to this internal scope") refused_half

writes : is_fastpath small_world (StateOp.kv_set "k" "s" 5 none ∷ []) ≡ true
unfolding is_fastpath any alters_tenant_state
writes = refl

do_op-protected_example :
    select is_protected
      (do_op small_world (user 2) half_refused no_flags quiet small_db).0.tenant_kv
    ≡ select is_protected small_db.tenant_kv
do_op-protected_example = do_op-protected small_world (user 2) quiet half_refused small_db

user≢guild : user 2 ≢ guild 5
user≢guild e = ground arith

do_op-SameRows_example :
    SameRows small_world
      (user 2)
      small_db
      (do_op small_world
        (guild 5)
        (StateOp.kv_delete "k" "#err" ∷ StateOp.subscribe_event "GUILD" "x" ∷ [])
        no_flags
        quiet
        small_db).0
do_op-SameRows_example =
    do_op-SameRows small_world (guild 5) (user 2) (omega arith) (omega arith)
      (λ e. user≢guild (sym e))
      (StateOp.kv_delete "k" "#err" ∷ StateOp.subscribe_event "GUILD" "x" ∷ []) no_flags quiet
      small_db

abbrev signing : List (StateOp ℕ)
signing = StateOp.kv_sign_url "k" "s" ∷ []

eligible : from_ops signing ≡ ok (FastStateReq.kv_sign_url "k" "s" ∷ [])
unfolding from_ops is_faststate_eligible convert_ops any
eligible = refl

do_op-from_ops_example :
    do_op small_world (guild 3) signing no_flags quiet small_db
    ≡ extend_by small_world
        (guild 3)
        no_flags
        quiet
        small_db
        empty_response
        (execute_fast small_world 100 (guild 3) (FastStateReq.kv_sign_url "k" "s" ∷ []))
do_op-from_ops_example =
    do_op-from_ops small_world (guild 3) no_flags quiet small_db signing
      (FastStateReq.kv_sign_url "k" "s" ∷ []) eligible refl refl
