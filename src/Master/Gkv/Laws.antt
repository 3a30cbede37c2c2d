-- ===== src/Master/Gkv/Laws.antt =====
-- What the calls of src/master/syscall/gkv.rs show, and to whom.
use template_worker.Prelude.{
  ℕ, ◌≡◌, ◌⊎◌, true, false, String, Option, none, some, ok, arith, inl, inr, str_beq, Option-cases,
  string_eq,
}
use template_worker.Prelude.Int.{ℤ}
use template_worker.Prelude.Rows.{first, first_passes}
use template_worker.Geese.State.Tables.{World, Db, GlobalRow}
use template_worker.Master.Context.{MSyscallContext, is_secure}
use template_worker.Master.Gkv.{
  MGkvSyscall, PartialGlobalKv, get_global_kv_call, find_global_kvs_call, is_offered, exec,
  find_global_kvs, get_global_kv, admin_set_global_kv_review_state,
}

module _ {V J : Type 0} (w : World V J) (faults : ℕ → Option String) where
  -- A key-value that is shown belongs to an approved row under the key that was asked for, and its value
  -- is shown only when the row is without a price and public; then it is the row's value.
  pub get_global_kv_call-eq-ok :
      (scope key : String) (version : ℤ) (db : Db J) (gkv : PartialGlobalKv V)
      → (get_global_kv_call w faults scope key version db).1 ≡ ok gkv
      → (r : GlobalRow J) × (first (is_offered w faults key version scope) db.global_kv ≡ some r)
        × (str_beq r.review_state "approved" ≡ true)
        × (r.price ≡ gkv.price)
        × (r.public_data ≡ gkv.public_data)
        × ((gkv.value ≡ none)
            ⊎ ((gkv.price ≡ none) × (gkv.public_data ≡ true) × (w.from_json r.value ≡ gkv.value)))
  unfolding get_global_kv_call
  get_global_kv_call-eq-ok scope key version db gkv h =
      elim (Option-cases (first (is_offered w faults key version scope) db.global_kv)) [
        | inl q ↦ absurd (ground arith)
        | inr (r, q) ↦ elim (Option-cases (w.from_json r.public_metadata)) [
          | inl p ↦ absurd (ground arith)
          | inr (v, p) ↦ (
            r,
            q,
            ground (arith, first_passes (is_offered w faults key version scope) db.global_kv r q),
            ground arith,
            ground arith,
            ground arith,
          )
        ]
      ]

  -- No call from a context that is not secure changes a row.
  pub gkv_exec_keeps :
      (ctx : MSyscallContext) (call : MGkvSyscall) (db : Db J)
      → is_secure ctx ≡ false
      → (exec w faults ctx call db).0 ≡ db
  unfolding exec find_global_kvs_call get_global_kv_call
  gkv_exec_keeps ctx (find_global_kvs scope pattern) db s = ground arith
  gkv_exec_keeps ctx (get_global_kv scope key version) db s = ground arith
  gkv_exec_keeps ctx (admin_set_global_kv_review_state key version scope st) db s = ground arith
