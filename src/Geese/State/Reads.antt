-- ===== src/Geese/State/Reads.antt =====
-- What a read answers after a write.
pub mod Examples
use template_worker.Prelude.{
  ℕ, ◌≡◌, refl, Bool, true, String, Option, none, some, ok, List, [], ◌∷◌, arith, inl, inr,
  Option-cases, Bool-cases, eq_iff,
}
use template_worker.Prelude.Rows.{
  first, any, update, upsert, first-any, first-append-new, first-some, any-delete,
}
use template_worker.Worker.Tenant.{TenantId, tenant_id, tenant_type}
use template_worker.Geese.State.Ops.{StateOp, StateDbFlags, alters_tenant_state}
use template_worker.Geese.State.Tables.{
  World, KvRow, Db, KvLookup, kv, StateExecResponse, Call, decode_optional, push_all,
}
use template_worker.Geese.State.Kv.{
  at_key, overwrite, new_kv_row, put_kv, drop_kv, kv_get_op, kv_set_op, kv_delete_op, read_kv,
}
use template_worker.Geese.State.Exec.{apply_op, do_op, call_at, Request, empty_response}
use template_worker.Geese.State.Atomicity.{do_op-single}

first-update :
    {A : Type 0} (p : A → Bool) (f : A → A)
    → ((a : A) → p a ≡ true → p (f a) ≡ true)
    → (xs : List A) (r : A) → first p xs ≡ some r
    → first p (update p f xs) ≡ some (f r)
unfolding first update
first-update p f keep [] r h = absurd (ground arith)
first-update p f keep (x ∷ xs) r h = ground (arith, first-update p f keep xs r, keep x)

first_sound : {A : Type 0} (p : A → Bool) (xs : List A) (r : A) → first p xs ≡ some r → p r ≡ true
unfolding first
first_sound p [] r h = absurd (ground arith)
first_sound p (x ∷ xs) r h = ground (arith, first_sound p xs r)

module _ {V J : Type 0} (w : World V J) (tid : TenantId) (key scope : String) where
  -- The row under a key after a write to that key
  abbrev pub IsWritten : J → Option (List ℕ) → ℕ → KvRow J → Type 0
  IsWritten value blob now r =
      (r.key ≡ key)
      × (r.scope ≡ scope)
      × (r.value ≡ value)
      × (r.blob ≡ blob)
      × (r.last_updated_at ≡ now)

  at_key_self :
      (flags : StateDbFlags) (rq : Request) (value : J) (blob : Option (List ℕ))
      → at_key w tid key scope (new_kv_row w (call_at w tid flags rq 0) key scope value blob) ≡ true
  unfolding at_key
  at_key_self flags rq value blob = ground (
    arith,
    eq_iff (tenant_id w.sf tid) (tenant_id w.sf tid),
    eq_iff (tenant_type tid) (tenant_type tid),
    eq_iff key key,
    eq_iff scope scope,
  )

  at_key-fields :
      (r : KvRow J) → at_key w tid key scope r ≡ true → (r.key ≡ key) × (r.scope ≡ scope)
  unfolding at_key
  at_key-fields r h = ground (arith, eq_iff r.key key, eq_iff r.scope scope)

  at_key-overwrite :
      (c : Call) (value : J) (blob : Option (List ℕ)) (r : KvRow J)
      → at_key w tid key scope r ≡ true
      → at_key w tid key scope (overwrite w c value blob r) ≡ true
  unfolding at_key
  at_key-overwrite c value blob r h = h

  module _ (flags : StateDbFlags) (rq : Request) where
    abbrev call : Call
    call = call_at w tid flags rq 0

    pub written :
        (value : J) (blob : Option (List ℕ)) (db : Db J)
        → (r : KvRow J) × (first
              (at_key w tid key scope)
              (put_kv w call key scope value blob db).tenant_kv
            ≡ some r)
          × IsWritten value blob rq.now r
    unfolding put_kv upsert
    written value blob db = elim (Bool-cases (any (at_key w tid key scope) db.tenant_kv)) [
      | inr new ↦ (
        new_kv_row w call key scope value blob,
        rw new (
            first-append-new (at_key w tid key scope) db.tenant_kv
              (new_kv_row w call key scope value blob) new (at_key_self flags rq value blob)),
        (refl, refl, refl, refl, refl),
      )
      | inl there ↦
          let (r, q) = first-some (at_key w tid key scope) db.tenant_kv there in
          let own : (r.key ≡ key) × (r.scope ≡ scope) =
            at_key-fields r (first_sound (at_key w tid key scope) db.tenant_kv r q) in
          (
            overwrite w call value blob r,
            rw there (
                first-update (at_key w tid key scope) (overwrite w call value blob)
                  (at_key-overwrite call value blob) db.tenant_kv r q),
            (own.0, own.1, refl, refl, refl),
          )
    ]

    -- A successful write has stored the value.
    pub set_stores :
        (value : V) (blob : Option (List ℕ)) (db : Db J) (resp resp' : StateExecResponse V)
        → (kv_set_op w call key scope value blob db resp).1 ≡ ok resp'
        → (j : J) × (w.to_json value ≡ some j)
          × ((kv_set_op w call key scope value blob db resp).0 ≡ put_kv w call key scope j blob db)
    unfolding kv_set_op
    set_stores value blob db resp resp' h = elim (Option-cases (w.to_json value)) [
      | inl q ↦ absurd (ground (arith, q))
      | inr (j, q) ↦ (j, q, ground (arith, q))
    ]

  abbrev lookup_at : V → KvRow J → KvLookup V
  lookup_at value r = record {
    key = r.key;
    value = value;
    scope = r.scope;
    created_at = r.created_at;
    last_updated_at = r.last_updated_at;
  }

  read_back :
      (c : Call) (value : V) (db : Db J) (r : KvRow J)
      → c.tid ≡ tid
      → c.fault ≡ none
      → first (at_key w tid key scope) db.tenant_kv ≡ some r
      → w.from_json r.value ≡ some value
      → (kv_get_op w c key scope db empty_response).1
        ≡ ok (record empty_response { results = kv (lookup_at value r) ∷ [] })
  unfolding kv_get_op read_kv decode_optional push_all
  read_back c value db r e f q d = ground arith

  -- After a write of a tenant that succeeded, a read of that key for the same tenant, with any flags, answers the written value, with its time of writing, unless the driver refuses the read.
  pub get-set :
      (flags flags' : StateDbFlags) (rq rq' : Request) (value : V) (blob : Option (List ℕ))
      (db : Db J) (resp : StateExecResponse V)
      → (do_op w tid (StateOp.kv_set key scope value blob ∷ []) flags rq db).1 ≡ ok resp
      → rq'.faults 0 ≡ none
      → (l : KvLookup V) × ((do_op w tid
            (StateOp.kv_get key scope ∷ [])
            flags'
            rq'
            (do_op w tid (StateOp.kv_set key scope value blob ∷ []) flags rq db).0).1
          ≡ ok (record empty_response { results = kv l ∷ [] }))
        × (l.key ≡ key)
        × (l.scope ≡ scope)
        × (l.value ≡ value)
        × (l.last_updated_at ≡ rq.now)
  unfolding apply_op alters_tenant_state
  get-set flags flags' rq rq' value blob db resp h f =
      let set = do_op-single w tid flags rq (StateOp.kv_set key scope value blob) db refl in
      let (j, serialized, stored) =
        set_stores flags rq value blob db empty_response resp (rw set at h) in
      let (r, found, own) = written flags rq j blob db in
      let db' : Db J = put_kv w (call_at w tid flags rq 0) key scope j blob db in
      let decoded : w.from_json r.value ≡ some value =
        rw own.2 (w.from_json-to_json value j serialized) in
      (
        lookup_at value r,
        rw set (
            rw stored (
              rw (do_op-single w tid flags' rq' (StateOp.kv_get key scope) db' refl)
                (read_back (call_at w tid flags' rq' 0) value db' r refl f found decoded))),
        own.0,
        own.1,
        refl,
        own.4,
      )

  delete_drops :
      (flags : StateDbFlags) (rq : Request) (db : Db J) (resp resp' : StateExecResponse V)
      → (kv_delete_op w (call_at w tid flags rq 0) key scope db resp).1 ≡ ok resp'
      → (kv_delete_op w (call_at w tid flags rq 0) key scope db resp).0
        ≡ drop_kv w (call_at w tid flags rq 0) key scope db
  unfolding kv_delete_op
  delete_drops flags rq db resp resp' h = ground arith

  read_none :
      (c : Call) (db : Db J)
      → c.tid ≡ tid
      → c.fault ≡ none
      → first (at_key w tid key scope) db.tenant_kv ≡ none
      → (kv_get_op w c key scope db empty_response).1 ≡ ok empty_response
  unfolding kv_get_op decode_optional push_all
  read_none c db e f q = ground arith

  -- After a deletion of a tenant that succeeded, a read of that key for the same tenant, with any flags, answers nothing, unless the driver refuses the read.
  pub get-delete :
      (flags flags' : StateDbFlags) (rq rq' : Request) (db : Db J) (resp : StateExecResponse V)
      → (do_op w tid (StateOp.kv_delete key scope ∷ []) flags rq db).1 ≡ ok resp
      → rq'.faults 0 ≡ none
      → (do_op w tid
          (StateOp.kv_get key scope ∷ [])
          flags'
          rq'
          (do_op w tid (StateOp.kv_delete key scope ∷ []) flags rq db).0).1
        ≡ ok empty_response
  unfolding apply_op alters_tenant_state drop_kv
  get-delete flags flags' rq rq' db resp h f =
      let deleted = do_op-single w tid flags rq (StateOp.kv_delete key scope) db refl in
      let dropped = delete_drops flags rq db empty_response resp (rw deleted at h) in
      let db' : Db J = drop_kv w (call_at w tid flags rq 0) key scope db in
      rw deleted (
        rw dropped (
          rw (do_op-single w tid flags' rq' (StateOp.kv_get key scope) db' refl) (
            read_none (call_at w tid flags' rq' 0) db' refl f (
              first-any (at_key w tid key scope) db'.tenant_kv
                (any-delete (at_key w tid key scope) db.tenant_kv)))))
