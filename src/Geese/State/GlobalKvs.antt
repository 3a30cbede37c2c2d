-- ===== src/Geese/State/GlobalKvs.antt =====
-- The rules of the global key-value store: who may create and delete a row, and whose data is open.
pub mod Examples
use template_worker.Prelude.{
  ◌≡◌, refl, Bool, true, false, ◌&&◌, String, none, some, ok, List, [], ◌∷◌, arith, inl, inr,
  Option-cases, eq_iff,
}
use template_worker.Prelude.Int.{ℤ, beq_iff}
use template_worker.Prelude.Rows.{first, any, insert_new, first-append-new}
use template_worker.Worker.Tenant.{TenantId, tenant_id, tenant_type}
use template_worker.Geese.TenantState.{owned_by}
use template_worker.Geese.State.Ops.{StateOp, NewGlobalKv, StateDbFlags, alters_tenant_state}
use template_worker.Geese.State.Tables.{
  World, GlobalRow, Db, global_kv_data, StateExecResponse, Call, push_all, decode_optional,
}
use template_worker.Geese.State.Global.{
  at_global_key, is_approved, new_global_row, insert_global, global_kv_create_op,
  global_kv_get_data_op, read_global_data, bad_key_length, starts_with_dot, ends_with_dot,
  all_key_chars,
}
use template_worker.Geese.State.Exec.{apply_op, do_op, call_at, Request, empty_response}
use template_worker.Geese.State.Atomicity.{do_op-single}

-- The keys that a tenant may publish under
abbrev pub IsPublishable : String → Type 0
IsPublishable key =
    (bad_key_length key ≡ false)
    × (starts_with_dot key ≡ false)
    × (ends_with_dot key ≡ false)
    × (all_key_chars key ≡ true)

module _ {V J : Type 0} (w : World V J) (tid : TenantId) (flags : StateDbFlags) (rq : Request) where
  abbrev call : Call
  call = call_at w tid flags rq 0

  at_global_key_self :
      (n : NewGlobalKv V) (m j : J)
      → at_global_key w n.key n.version n.scope (new_global_row w call n m j) ≡ true
  unfolding at_global_key
  at_global_key_self n m j =
      ground (arith, eq_iff n.key n.key, beq_iff n.version n.version, eq_iff n.scope n.scope)

  create_inserts :
      (n : NewGlobalKv V) (db : Db J) (resp resp' : StateExecResponse V)
      → (global_kv_create_op w call n db resp).1 ≡ ok resp'
      → IsPublishable n.key
        × (any (at_global_key w n.key n.version n.scope) db.global_kv ≡ false)
        × ((m : J) × (j : J) × ((global_kv_create_op w call n db resp).0.global_kv
              ≡ insert_new
                  (at_global_key w n.key n.version n.scope)
                  (new_global_row w call n m j)
                  db.global_kv))
  unfolding global_kv_create_op insert_global
  create_inserts n db resp resp' h = elim (Option-cases (w.to_json n.public_metadata)) [
    | inl q ↦ absurd (ground (arith, q))
    | inr (m, q) ↦ elim (Option-cases (w.to_json n.value)) [
      | inl q' ↦ absurd (ground (arith, q, q'))
      | inr (j, q') ↦ (ground (arith, q, q'), ground (arith, q, q'), (m, j, ground (arith, q, q')))
    ]
  ]

  abbrev at_row : NewGlobalKv V → GlobalRow J → Bool
  at_row n = at_global_key w n.key n.version n.scope

  inserted :
      (n : NewGlobalKv V) (m j : J) (rows : List (GlobalRow J))
      → any (at_row n) rows ≡ false
      → first (at_row n) (insert_new (at_row n) (new_global_row w call n m j) rows)
        ≡ some (new_global_row w call n m j)
  unfolding insert_new
  inserted n m j rows new = rw new (
      first-append-new (at_row n) rows (new_global_row w call n m j) new (at_global_key_self n m j))

  -- A row is created only under a publishable key that no row has at that version and scope. It then stands in the table, owned by the creator, without a price, and with the review state of a new row.
  pub global_kv_create-ok :
      (n : NewGlobalKv V) (db : Db J) (resp : StateExecResponse V)
      → (do_op w tid (StateOp.global_kv_create n ∷ []) flags rq db).1 ≡ ok resp
      → IsPublishable n.key
        × (any (at_row n) db.global_kv ≡ false)
        × ((r : GlobalRow J) × (first
                (at_row n)
                (do_op w tid (StateOp.global_kv_create n ∷ []) flags rq db).0.global_kv
              ≡ some r)
            × (owned_by w.sf tid r.owner_id r.owner_type ≡ true)
            × (r.price ≡ none)
            × (r.review_state ≡ w.default_review_state))
  unfolding apply_op alters_tenant_state
  global_kv_create-ok n db resp h =
      let alone = do_op-single w tid flags rq (StateOp.global_kv_create n) db refl in
      let (publishable, new, (m, j, rows)) =
        create_inserts n db empty_response resp (rw alone at h) in
      (
        publishable,
        new,
        (
          new_global_row w call n m j,
          rw alone (rw rows (inserted n m j db.global_kv new)),
          own_row,
          refl,
          refl,
        ),
      )
    where
      own_row : owned_by w.sf tid (tenant_id w.sf tid) (tenant_type tid) ≡ true
      own_row = ground (
        arith,
        eq_iff (tenant_id w.sf tid) (tenant_id w.sf tid),
        eq_iff (tenant_type tid) (tenant_type tid),
      )

  first-found :
      {A : Type 0} (p : A → Bool) (xs : List A) (r : A)
      → first p xs ≡ some r
      → (p r ≡ true) × (any p xs ≡ true)
  unfolding first any
  first-found p [] r h = absurd (ground arith)
  first-found p (x ∷ xs) r h = ground (arith, first-found p xs r)

  get_data-reads :
      (key : String) (version : ℤ) (scope : String) (db : Db J) (v : V)
      → (global_kv_get_data_op w call key version scope db empty_response).1
        ≡ ok (record empty_response { results = global_kv_data v ∷ [] })
      → (r : GlobalRow J) × (first
            (λ x. at_global_key w key version scope x && is_approved w x)
            db.global_kv
          ≡ some r)
        × (r.public_data ≡ true)
        × (r.price ≡ none)
        × (w.from_json r.value ≡ some v)
  unfolding global_kv_get_data_op read_global_data decode_optional push_all
  get_data-reads key version scope db v h =
      elim (Option-cases
        (first (λ x. at_global_key w key version scope x && is_approved w x) db.global_kv)) [
          | inl q ↦ absurd (ground (arith, q))
          | inr (r, q) ↦ elim (Option-cases (w.from_json r.value)) [
            | inl d ↦ absurd (ground (arith, q, d))
            | inr (u, d) ↦ elim (Option-cases r.price) [
              | inl p ↦ (r, q, ground (arith, q, d, p), p, ground (arith, q, d, p))
              | inr (x, p) ↦ absurd (ground (arith, q, d, p))
            ]
          ]
        ]

  -- Data that is handed out in the open is the data of a row with that key, version and scope which is approved, public and free.
  pub global_kv_get_data-open :
      (key : String) (version : ℤ) (scope : String) (db : Db J) (v : V)
      → (do_op w tid (StateOp.global_kv_get_data key version scope ∷ []) flags rq db).1
        ≡ ok (record empty_response { results = global_kv_data v ∷ [] })
      → (r : GlobalRow J) × (at_global_key w key version scope r ≡ true)
        × (r.review_state ≡ "approved")
        × (r.public_data ≡ true)
        × (r.price ≡ none)
        × (w.from_json r.value ≡ some v)
  unfolding apply_op alters_tenant_state
  global_kv_get_data-open key version scope db v h =
      let alone =
        do_op-single w tid flags rq (StateOp.global_kv_get_data key version scope) db refl in
      let (r, q, is_public, free, decoded) =
        get_data-reads key version scope db v (rw alone at h) in
      let found =
        (first-found (λ x. at_global_key w key version scope x && is_approved w x) db.global_kv r
          q).0 in
      (
        r,
        ground (arith, found),
        ground (arith, found, eq_iff r.review_state "approved"),
        is_public,
        free,
        decoded,
      )
