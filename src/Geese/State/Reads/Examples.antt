-- ===== src/Geese/State/Reads/Examples.antt =====
-- Reads after a write and a deletion on small tables.
use template_worker.Prelude.{ℕ, ◌≡◌, refl, none, ok, List, [], ◌∷◌, string_eq}
use template_worker.Prelude.Rows.{any}
use template_worker.Worker.Tenant.{user}
use template_worker.Geese.State.Ops.{
  StateOp, no_flags, worker_flags, admin_flags, alters_tenant_state, can_set_internal_scope,
  can_delete_internal_scope,
}
use template_worker.Geese.State.Tables.{KvLookup, kv}
use template_worker.Geese.State.Kv.{is_internal, blob_too_large, kv_set_op, kv_delete_op, put_kv}
use template_worker.Geese.State.Exec.{empty_response, apply_op, apply_ops, is_fastpath, do_op}
use template_worker.Geese.State.Reads.{get-set}
use template_worker.Geese.State.Examples.{small_world, small_db, quiet}

abbrev set_k : List (StateOp ℕ)
set_k = StateOp.kv_set "k" "#log" 5 none ∷ []

set_succeeds : (do_op small_world (user 2) set_k admin_flags quiet small_db).1 ≡ ok empty_response
unfolding do_op is_fastpath apply_ops apply_op kv_set_op put_kv is_internal blob_too_large
    can_set_internal_scope alters_tenant_state any
set_succeeds = refl

get-set_example :
    (l : KvLookup ℕ) × ((do_op small_world
        (user 2)
        (StateOp.kv_get "k" "#log" ∷ [])
        no_flags
        quiet
        (do_op small_world (user 2) set_k admin_flags quiet small_db).0).1
      ≡ ok (record empty_response { results = kv l ∷ [] }))
    × (l.key ≡ "k")
    × (l.scope ≡ "#log")
    × (l.value ≡ 5)
    × (l.last_updated_at ≡ 100)
get-set_example =
    get-set small_world (user 2) "k" "#log" admin_flags no_flags quiet quiet 5 none small_db
      empty_response set_succeeds refl

abbrev delete_k : List (StateOp ℕ)
delete_k = StateOp.kv_delete "k" "#secret" ∷ []

delete_succeeds :
    (do_op small_world (user 2) delete_k worker_flags quiet small_db).1 ≡ ok empty_response
unfolding do_op is_fastpath apply_ops apply_op kv_delete_op is_internal can_delete_internal_scope
    alters_tenant_state any
delete_succeeds = refl
