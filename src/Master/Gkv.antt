-- ===== src/Master/Gkv.antt =====
-- src/master/syscall/gkv.rs: the shared key-values, as anyone may browse them, and their review.
pub mod Laws
pub mod Examples
use template_worker.Prelude.{
  ℕ, Bool, true, false, ◌&&◌, not, String, Option, none, some, Result, ok, err, List, map_ok,
  or_else, is_some, str_beq, if◌then◌else◌,
}
use template_worker.Prelude.Int.{ℤ}
use template_worker.Prelude.Actions.{Action, pure, gets, lift, modify, ensure, ◌>>=◌, ◌>>◌}
use template_worker.Prelude.Rows.{select, first, update}
use template_worker.Geese.State.Tables.{World, Db, GlobalRow, decode_all, decode_optional}
use template_worker.Geese.State.Global.{at_global_key, is_approved}
use template_worker.Master.Context.{
  MSyscallContext, MSyscallError, generic, context_insecure, entity_not_found, is_secure,
}
use template_worker.Master.Handler.{generic_err}
use template_worker.Master.Sessions.{ran}

pub data MGkvSyscall : Type 0 where
  -- the scope and the query
  find_global_kvs : String → String → MGkvSyscall
  -- the scope, the key and the version
  get_global_kv : String → String → ℤ → MGkvSyscall
  -- the key, the version, the scope and the state
  admin_set_global_kv_review_state : String → ℤ → String → String → MGkvSyscall

-- `value` is the field `data`, of type `Option<GlobalKvData>`.
pub record PartialGlobalKv (V : Type 0) : Type 0 where
  pub key : String
  pub version : ℤ
  pub owner_id : String
  pub owner_type : String
  pub price : Option ℤ
  pub short : String
  pub public_metadata : V
  pub scope : String
  pub created_at : ℕ
  pub last_updated_at : ℕ
  pub public_data : Bool
  pub review_state : String
  pub long : Option String
  pub value : Option V

pub data MGkvSyscallRet (V : Type 0) : Type 0 where
  global_kv_list : List (PartialGlobalKv V) → MGkvSyscallRet V
  global_kv : PartialGlobalKv V → MGkvSyscallRet V
  ack : MGkvSyscallRet V

module _ {V J : Type 0} (w : World V J) (faults : ℕ → Option String) where
  abbrev partial_of : GlobalRow J → Option String → Option V → Option (PartialGlobalKv V)
  partial_of r long none = none
  partial_of r long (some v) = some (record {
    key = r.key;
    version = r.version;
    owner_id = r.owner_id;
    owner_type = r.owner_type;
    price = r.price;
    short = r.short;
    public_metadata = v;
    scope = r.scope;
    created_at = r.created_at;
    last_updated_at = r.last_updated_at;
    public_data = r.public_data;
    review_state = r.review_state;
    long = long;
    value = none;
  })

  -- A row of a list is read without `long`.
  abbrev pub read_listed : GlobalRow J → Option (PartialGlobalKv V)
  read_listed r = partial_of r none (w.from_json r.public_metadata)

  abbrev pub read_whole : GlobalRow J → Option (PartialGlobalKv V)
  read_whole r = partial_of r r.long (w.from_json r.public_metadata)

  -- A statement that reads: the driver may refuse it, and a row may not be readable.
  abbrev query : {A B : Type 0} → ℕ → (Db J → A) → (A → Option B) → Action (Db J) MSyscallError B
  query n f read = do
    lift (generic_err (ran (faults n)))
    rows ← gets f
    lift (or_else (read rows) (generic "column could not be decoded"))

  abbrev read_optional : {A B : Type 0} → (A → Option B) → Option A → Option (Option B)
  read_optional f none = some none
  read_optional f (some a) = elim (f a) [ none ↦ none | some b ↦ some (some b) ]

  -- WHERE review_state = 'approved' AND key = $1 AND version = $2 AND scope = $3
  abbrev pub is_offered : String → ℤ → String → GlobalRow J → Bool
  is_offered key version scope r = is_approved w r && at_global_key w key version scope r

  abbrev pub is_listed : String → String → GlobalRow J → Bool
  is_listed scope pattern r =
      str_beq r.scope scope
      && is_approved w r
      && (if str_beq pattern "%%" then true else w.like r.key pattern)

  unfoldable pub find_global_kvs_call :
      String → String → Action (Db J) MSyscallError (List (PartialGlobalKv V))
  unfolding select decode_all
  find_global_kvs_call scope pattern =
      query 0 (λ db. select (is_listed scope pattern) db.global_kv) (decode_all read_listed)

  -- The value goes with what is free and public.
  abbrev with_value :
      String → ℤ → String → PartialGlobalKv V → Action (Db J) MSyscallError (PartialGlobalKv V)
  with_value key version scope gkv =
      if not (is_some gkv.price) && gkv.public_data
      then (do
        value ←
            query 1 (λ db. first (is_offered key version scope) db.global_kv)
              (read_optional (λ r. w.from_json r.value))
        pure (record gkv { value = value }))
      else pure gkv

  unfoldable pub get_global_kv_call :
      String → String → ℤ → Action (Db J) MSyscallError (PartialGlobalKv V)
  unfolding first at_global_key
  get_global_kv_call scope key version = do
    item ←
        query 0 (λ db. first (is_offered key version scope) db.global_kv) (read_optional read_whole)
    gkv ← lift (
        or_else item
          (entity_not_found "Global kv entry with this scope/key/version pair was not found"))
    with_value key version scope gkv

  -- UPDATE global_kv SET review_state = $1 WHERE scope = $2 AND key = $3 AND version = $4
  unfoldable pub set_review_state : String → ℤ → String → String → Db J → Db J
  unfolding update at_global_key
  set_review_state key version scope review_state db = record db {
    global_kv =
        update (at_global_key w key version scope) (λ r. record r { review_state = review_state })
          db.global_kv;
  }

  -- `MGkvSyscall::exec`
  unfoldable pub exec :
      MSyscallContext → MGkvSyscall → Action (Db J) MSyscallError (MGkvSyscallRet V)
  unfolding find_global_kvs_call get_global_kv_call set_review_state is_secure
  exec ctx (find_global_kvs scope pattern) = do
    gkvs ← find_global_kvs_call scope pattern
    pure (global_kv_list gkvs)
  exec ctx (get_global_kv scope key version) = do
    gkv ← get_global_kv_call scope key version
    pure (global_kv gkv)
  exec ctx (admin_set_global_kv_review_state key version scope review_state) = do
    ensure (is_secure ctx) context_insecure
    lift (generic_err (ran (faults 0)))
    modify (set_review_state key version scope review_state)
    pure ack
