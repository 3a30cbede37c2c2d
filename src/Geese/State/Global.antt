-- ===== src/Geese/State/Global.antt =====
-- The global key-value operations of `apply_op` in src/geese/state.rs, one function for each branch.
use Prim.Native.Char.{Char, code}
use template_worker.Prelude.{
  ℕ, Bool, true, false, ◌&&◌, ◌||◌, not, String, len, Option, none, some, ok, ltb, leb, nat_beq,
  str_beq, if◌then◌else◌, is_some,
}
use template_worker.Prelude.Int.{ℤ, beq}
use template_worker.Prelude.Rows.{select, first, any, insert_new, delete}
use template_worker.Worker.Tenant.{tenant_id, tenant_type}
use template_worker.Geese.TenantState.{owned_by}
use template_worker.Geese.State.Ops.{NewGlobalKv}
use template_worker.Geese.State.Tables.{
  World, GlobalRow, Db, StateExecResult, global_kv, global_kv_data, global_kv_data_opaque,
  StateExecResponse, Call, Outcome, refuse, statement, answer, decode_all, decode_optional,
}

-- `c.is_ascii_alphanumeric() || c == '.' || c == '-' || c == '_'`
unfoldable pub is_key_char : ℕ → Bool
is_key_char c =
    (leb b'0' c && leb c b'9')
    || (leb b'A' c && leb c b'Z')
    || (leb b'a' c && leb c b'z')
    || nat_beq c b'.'
    || nat_beq c b'-'
    || nat_beq c b'_'

unfoldable pub all_key_chars : String → Bool
unfolding is_key_char
all_key_chars String.[] = true
all_key_chars (String.◌∷◌ c s) = is_key_char (code c) && all_key_chars s

-- `key.starts_with('.')` and `key.ends_with('.')`
unfoldable pub starts_with_dot : String → Bool
starts_with_dot String.[] = false
starts_with_dot (String.◌∷◌ c s) = nat_beq (code c) b'.'

unfoldable pub last_is_dot : Char → String → Bool
last_is_dot c String.[] = nat_beq (code c) b'.'
last_is_dot c (String.◌∷◌ d s) = last_is_dot d s

unfoldable pub ends_with_dot : String → Bool
unfolding last_is_dot
ends_with_dot String.[] = false
ends_with_dot (String.◌∷◌ c s) = last_is_dot c s

unfoldable pub bad_key_length : String → Bool
bad_key_length key = ltb (len key) 3 || ltb 64 (len key)

module _ {V J : Type 0} (w : World V J) where
  -- WHERE key = $1 AND version = $2 AND scope = $3
  unfoldable pub at_global_key : String → ℤ → String → GlobalRow J → Bool
  at_global_key key version scope r =
      str_beq r.key key && beq r.version version && str_beq r.scope scope

  -- .. AND review_state = 'approved'
  abbrev pub is_approved : GlobalRow J → Bool
  is_approved r = str_beq r.review_state "approved"

  abbrev global_of : GlobalRow J → Option V → Option (StateExecResult V)
  global_of r none = none
  global_of r (some v) = some (
      global_kv (record {
        key = r.key;
        version = r.version;
        owner_id = r.owner_id;
        owner_type = r.owner_type;
        price = r.price;
        short = r.short;
        public_metadata = v;
        scope = r.scope;
        created_at = r.created_at;
        last_updated_at = r.last_updated_at;
        public_data = r.public_data;
        review_state = r.review_state;
        long = none;
      }))

  -- `GlobalKv` from a row; the column `long` is not selected.
  unfoldable pub read_global : GlobalRow J → Option (StateExecResult V)
  read_global r = global_of r (w.from_json r.public_metadata)

  abbrev global_data_of : Bool → Option V → Option (StateExecResult V)
  global_data_of public none = none
  global_data_of true (some v) = some (global_kv_data v)
  global_data_of false (some v) = some (global_kv_data_opaque v)

  -- `GlobalKvData` from a row: `self.public_data && self.price.is_none()`
  unfoldable pub read_global_data : GlobalRow J → Option (StateExecResult V)
  read_global_data r = global_data_of (r.public_data && not (is_some r.price)) (w.from_json r.value)

  unfoldable pub global_kv_find_op :
      Call → String → String → Db J → StateExecResponse V → Outcome V J
  global_kv_find_op c query scope db resp =
      let rows =
        if str_beq query "%%"
        then select (λ r. str_beq r.scope scope && is_approved r) db.global_kv
        else select (λ r. str_beq r.scope scope && is_approved r && w.like r.key query)
            db.global_kv in
      statement c.fault db (answer db resp (decode_all read_global rows))

  unfoldable pub global_kv_get_op :
      Call → String → ℤ → String → Db J → StateExecResponse V → Outcome V J
  global_kv_get_op c key version scope db resp = statement c.fault db (
      answer db resp (
        decode_optional read_global
          (first (λ r. at_global_key key version scope r && is_approved r) db.global_kv)))

  unfoldable pub global_kv_get_data_op :
      Call → String → ℤ → String → Db J → StateExecResponse V → Outcome V J
  global_kv_get_data_op c key version scope db resp = statement c.fault db (
      answer db resp (
        decode_optional read_global_data
          (first (λ r. at_global_key key version scope r && is_approved r) db.global_kv)))

  abbrev pub new_global_row : Call → NewGlobalKv V → J → J → GlobalRow J
  new_global_row c n metadata value = record {
    id = c.sample;
    key = n.key;
    version = n.version;
    owner_id = tenant_id w.sf c.tid;
    owner_type = tenant_type c.tid;
    price = none;
    short = n.short;
    public_metadata = metadata;
    scope = n.scope;
    created_at = c.now;
    last_updated_at = c.now;
    public_data = n.public_data;
    review_state = w.default_review_state;
    long = n.long;
    value = value;
  }

  -- INSERT .. ON CONFLICT (key, version, scope) DO NOTHING, and the count of its rows
  unfoldable pub insert_global :
      Call → NewGlobalKv V → J → J → Db J → StateExecResponse V → Outcome V J
  insert_global c n metadata value db resp =
      if any (at_global_key n.key n.version n.scope) db.global_kv
      then refuse db "Global KV with the same key, version, and scope already exists"
      else (
        record db {
          global_kv =
              insert_new (at_global_key n.key n.version n.scope) (new_global_row c n metadata value)
                db.global_kv;
        },
        ok resp,
      )

  abbrev store_global :
      Call → NewGlobalKv V → Option J → Option J → Db J → StateExecResponse V → Outcome V J
  store_global c n none value db resp = refuse db "metadata could not be serialized"
  store_global c n (some m) none db resp = refuse db "data could not be serialized"
  store_global c n (some m) (some j) db resp = statement c.fault db (insert_global c n m j db resp)

  unfoldable pub global_kv_create_op :
      Call → NewGlobalKv V → Db J → StateExecResponse V → Outcome V J
  global_kv_create_op c n db resp =
      if bad_key_length n.key
      then refuse db "keys must be between 3 and 64 characters long"
      else if starts_with_dot n.key || ends_with_dot n.key
      then refuse db "keys may not start or end with a dot"
      else if not (all_key_chars n.key)
      then refuse db "keys may only contain alphanumeric characters, dots, dashes, and underscores"
      else store_global c n (w.to_json n.public_metadata) (w.to_json n.value) db resp

  -- .. AND owner_id = $4 AND owner_type = $5
  abbrev pub own_global : Call → String → ℤ → String → GlobalRow J → Bool
  own_global c key version scope r =
      at_global_key key version scope r && owned_by w.sf c.tid r.owner_id r.owner_type

  unfoldable pub delete_global :
      Call → String → ℤ → String → Db J → StateExecResponse V → Outcome V J
  delete_global c key version scope db resp =
      if any (own_global c key version scope) db.global_kv
      then (record db { global_kv = delete (own_global c key version scope) db.global_kv }, ok resp)
      else refuse db "No matching Global KV found to delete or insufficient permissions"

  unfoldable pub global_kv_delete_op :
      Call → String → ℤ → String → Db J → StateExecResponse V → Outcome V J
  global_kv_delete_op c key version scope db resp =
      statement c.fault db (delete_global c key version scope db resp)
