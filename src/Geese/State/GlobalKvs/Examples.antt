-- ===== src/Geese/State/GlobalKvs/Examples.antt =====
-- Global key-values on small tables.
use template_worker.Prelude.{ℕ, ◌≡◌, refl, true, none, ok, [], ◌∷◌, string_eq}
use template_worker.Prelude.Int.{pos}
use template_worker.Prelude.Rows.{first, any}
use template_worker.Worker.Tenant.{user, guild}
use template_worker.Geese.State.Ops.{StateOp, NewGlobalKv, no_flags, alters_tenant_state}
use template_worker.Geese.State.Tables.{global_kv_data, push_all, decode_optional}
use template_worker.Geese.State.Global.{
  all_key_chars, starts_with_dot, ends_with_dot, bad_key_length, at_global_key, read_global_data,
  global_kv_create_op, insert_global, global_kv_get_data_op, last_is_dot, is_key_char,
}
use template_worker.Geese.State.Exec.{empty_response, apply_op, apply_ops, is_fastpath, do_op}
use template_worker.Geese.State.Examples.{small_world, small_db, quiet}

abbrev publication : NewGlobalKv ℕ
publication = record {
  key = "my.key";
  version = pos 1;
  short = "";
  public_metadata = 0;
  scope = "s";
  public_data = true;
  long = none;
  value = 7;
}

created :
    (do_op small_world
      (user 2)
      (StateOp.global_kv_create publication ∷ [])
      no_flags
      quiet
      small_db).1
    ≡ ok empty_response
unfolding do_op is_fastpath apply_ops apply_op global_kv_create_op bad_key_length starts_with_dot
    ends_with_dot last_is_dot all_key_chars is_key_char insert_global any at_global_key
    alters_tenant_state
created = refl

opened :
    (do_op small_world
      (guild 5)
      (StateOp.global_kv_get_data "shop" (pos 1) "s" ∷ [])
      no_flags
      quiet
      small_db).1
    ≡ ok (record empty_response { results = global_kv_data 9 ∷ [] })
unfolding do_op is_fastpath apply_ops apply_op global_kv_get_data_op read_global_data
    decode_optional push_all first any at_global_key alters_tenant_state
opened = refl
