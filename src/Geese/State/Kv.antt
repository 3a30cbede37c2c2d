-- ===== src/Geese/State/Kv.antt =====
-- The key-value operations of `apply_op` in src/geese/state.rs, one function for each branch.
use text.Mathlib.Text.{starts_with}
use template_worker.Prelude.{
  ℕ, Bool, false, ◌&&◌, not, String, len, Option, none, some, Result, ok, err, List, ltb, str_beq,
  if◌then◌else◌,
}
use template_worker.Prelude.Rows.{length, select, first, upsert, delete}
use template_worker.Worker.Tenant.{TenantId, tenant_id, tenant_type}
use template_worker.Geese.Urlsign.{create_url}
use template_worker.Geese.TenantState.{owned_by}
use template_worker.Geese.State.Ops.{can_set_internal_scope, can_delete_internal_scope}
use template_worker.Geese.State.Tables.{
  World, KvRow, Db, KvLookup, StateExecResult, kv, kv_with_blob, kv_sign_url, StateExecResponse,
  message, Call, Outcome, refuse, statement, push, answer, decode_all, decode_optional,
}

-- KV_MAX_KEY_LENGTH, KV_SIGN_URL_EXPIRATION_SECONDS, MAX_OBJ_STORAGE_BYTES of src/worker/limits.rs
abbrev pub kv_max_key_length : ℕ
kv_max_key_length = 512

abbrev pub kv_sign_url_expiration_seconds : ℕ
kv_sign_url_expiration_seconds = 300

abbrev pub max_obj_storage_bytes : ℕ
max_obj_storage_bytes = 524288

-- `scope.starts_with('#')`
unfoldable pub is_internal : String → Bool
is_internal scope = starts_with scope "#"

-- `blob.len() > MAX_OBJ_STORAGE_BYTES`, where there is a blob
unfoldable pub blob_too_large : Option (List ℕ) → Bool
blob_too_large none = false
blob_too_large (some b) = ltb max_obj_storage_bytes (length b)

module _ {V J : Type 0} (w : World V J) where
  -- WHERE owner_id = $1 AND owner_type = $2 AND scope = $3
  abbrev pub in_scope : TenantId → String → KvRow J → Bool
  in_scope tid scope r = owned_by w.sf tid r.owner_id r.owner_type && str_beq r.scope scope

  -- WHERE owner_id = $1 AND owner_type = $2 AND key = $3 AND scope = $4
  unfoldable pub at_key : TenantId → String → String → KvRow J → Bool
  at_key tid key scope r =
      owned_by w.sf tid r.owner_id r.owner_type && str_beq r.key key && str_beq r.scope scope

  abbrev lookup_of : KvRow J → Option V → Option (KvLookup V)
  lookup_of r none = none
  lookup_of r (some v) = some (record {
    key = r.key;
    value = v;
    scope = r.scope;
    created_at = r.created_at;
    last_updated_at = r.last_updated_at;
  })

  abbrev as_kv : Option (KvLookup V) → Option (StateExecResult V)
  as_kv none = none
  as_kv (some l) = some (kv l)

  abbrev as_kv_with_blob : Option (List ℕ) → Option (KvLookup V) → Option (StateExecResult V)
  as_kv_with_blob blob none = none
  as_kv_with_blob blob (some l) = some (kv_with_blob l blob)

  -- `KvLookup` and `KvLookupWithBlob` from a row, and `into_result`
  unfoldable pub read_kv : KvRow J → Option (StateExecResult V)
  read_kv r = as_kv (lookup_of r (w.from_json r.value))

  unfoldable pub read_kv_with_blob : KvRow J → Option (StateExecResult V)
  read_kv_with_blob r = as_kv_with_blob r.blob (lookup_of r (w.from_json r.value))

  unfoldable pub kv_find_op : Call → String → String → Db J → StateExecResponse V → Outcome V J
  kv_find_op c query scope db resp =
      let rows =
        if str_beq query "%%"
        then select (in_scope c.tid scope) db.tenant_kv
        else select (λ r. in_scope c.tid scope r && w.like r.key query) db.tenant_kv in
      statement c.fault db (answer db resp (decode_all read_kv rows))

  unfoldable pub kv_get_op : Call → String → String → Db J → StateExecResponse V → Outcome V J
  kv_get_op c key scope db resp =
      statement c.fault db
        (answer db resp (decode_optional read_kv (first (at_key c.tid key scope) db.tenant_kv)))

  unfoldable pub kv_get_with_blob_op :
      Call → String → String → Db J → StateExecResponse V → Outcome V J
  kv_get_with_blob_op c key scope db resp = statement c.fault db (
      answer db resp
        (decode_optional read_kv_with_blob (first (at_key c.tid key scope) db.tenant_kv)))

  abbrev push_url : Db J → StateExecResponse V → Result String String → Outcome V J
  push_url db resp (err e) = (db, err (message e))
  push_url db resp (ok url) = (db, ok (push (kv_sign_url url kv_sign_url_expiration_seconds) resp))

  unfoldable pub kv_sign_url_op : Call → String → String → Db J → StateExecResponse V → Outcome V J
  kv_sign_url_op c key scope db resp = push_url db resp (
      create_url w.sf w.crypto w.url_codec w.cfg c.now c.tid key scope
        kv_sign_url_expiration_seconds)

  -- The row that INSERT INTO tenant_kv writes, and the columns that DO UPDATE SET writes
  abbrev pub new_kv_row : Call → String → String → J → Option (List ℕ) → KvRow J
  new_kv_row c key scope value blob = record {
    id = c.sample;
    owner_id = tenant_id w.sf c.tid;
    owner_type = tenant_type c.tid;
    key = key;
    scope = scope;
    value = value;
    blob = blob;
    created_at = c.now;
    last_updated_at = c.now;
  }

  abbrev pub overwrite : Call → J → Option (List ℕ) → KvRow J → KvRow J
  overwrite c value blob r = record r { value = value; blob = blob; last_updated_at = c.now }

  unfoldable pub put_kv : Call → String → String → J → Option (List ℕ) → Db J → Db J
  put_kv c key scope value blob db = record db {
    tenant_kv =
        upsert (at_key c.tid key scope) (overwrite c value blob) (new_kv_row c key scope value blob)
          db.tenant_kv;
  }

  abbrev store_kv :
      Call → String → String → Option J → Option (List ℕ) → Db J → StateExecResponse V → Outcome V J
  store_kv c key scope none blob db resp = refuse db "value could not be serialized"
  store_kv c key scope (some j) blob db resp =
      statement c.fault db (put_kv c key scope j blob db, ok resp)

  unfoldable pub kv_set_op :
      Call → String → String → V → Option (List ℕ) → Db J → StateExecResponse V → Outcome V J
  kv_set_op c key scope value blob db resp =
      if ltb kv_max_key_length (len key)
      then refuse db "key-value length exceeds 512 chars"
      else if is_internal scope && not (can_set_internal_scope c.flags)
      then refuse db "Cannot write to this internal scope"
      else if blob_too_large blob
      then refuse db "blob size exceeds 524288 bytes"
      else store_kv c key scope (w.to_json value) blob db resp

  unfoldable pub drop_kv : Call → String → String → Db J → Db J
  drop_kv c key scope db = record db { tenant_kv = delete (at_key c.tid key scope) db.tenant_kv }

  unfoldable pub kv_delete_op : Call → String → String → Db J → StateExecResponse V → Outcome V J
  kv_delete_op c key scope db resp =
      if is_internal scope && not (can_delete_internal_scope c.flags scope)
      then refuse db "Cannot write to this internal scope"
      else statement c.fault db (drop_kv c key scope db, ok resp)
