-- ===== src/Geese/State/Tables.antt =====
-- The tables, the answers and the surroundings of src/geese/state.rs. Values are stored as JSON.
-- A statement may be refused by the database driver: `Call.fault` holds its error.
use template_worker.Prelude.{
  ℕ, ◌≡◌, Bool, String, Option, none, some, Result, ok, err, List, [], ◌∷◌, ◌++◌,
}
use template_worker.Prelude.Int.{ℤ}
use template_worker.Worker.Tenant.{TenantId, Snowflakes}
use template_worker.Geese.Signing.{Crypto, Codec, Config}
use template_worker.Geese.Urlsign.{Payload}
use template_worker.Geese.TenantState.{TenantState, StateTables}
use template_worker.Geese.State.Ops.{StateDbFlags}

-- What the code uses of other crates, of the configuration, and of the database: `like text pattern`
-- is the LIKE operator, `default_review_state` the default of a column.
pub record World (V J : Type 0) : Type 0 where
  pub sf : Snowflakes
  pub crypto : Crypto
  pub url_codec : Codec Payload
  pub cfg : Config
  pub to_json : V → Option J
  pub from_json : J → Option V
  pub like : String → String → Bool
  pub default_review_state : String
  pub from_json-to_json : (v : V) (j : J) → to_json v ≡ some j → from_json j ≡ some v

-- A row of `tenant_kv`; (owner_id, owner_type, key, scope) is its unique key.
pub record KvRow (J : Type 0) : Type 0 where
  pub id : String
  pub owner_id : String
  pub owner_type : String
  pub key : String
  pub scope : String
  pub value : J
  pub blob : Option (List ℕ)
  pub created_at : ℕ
  pub last_updated_at : ℕ

-- A row of `global_kv`; (key, version, scope) is its unique key.
pub record GlobalRow (J : Type 0) : Type 0 where
  pub id : String
  pub key : String
  pub version : ℤ
  pub owner_id : String
  pub owner_type : String
  pub price : Option ℤ
  pub short : String
  pub public_metadata : J
  pub scope : String
  pub created_at : ℕ
  pub last_updated_at : ℕ
  pub public_data : Bool
  pub review_state : String
  pub long : Option String
  pub value : J

pub record Db (J : Type 0) : Type 0 where
  pub tenant_kv : List (KvRow J)
  pub global_kv : List (GlobalRow J)
  pub states : StateTables

pub record KvLookup (V : Type 0) : Type 0 where
  pub key : String
  pub value : V
  pub scope : String
  pub created_at : ℕ
  pub last_updated_at : ℕ

pub record GlobalKv (V : Type 0) : Type 0 where
  pub key : String
  pub version : ℤ
  pub owner_id : String
  pub owner_type : String
  pub price : Option ℤ
  pub short : String
  pub public_metadata : V
  pub scope : String
  pub created_at : ℕ
  pub last_updated_at : ℕ
  pub public_data : Bool
  pub review_state : String
  pub long : Option String

pub data StateExecResult (V : Type 0) : Type 0 where
  kv : KvLookup V → StateExecResult V
  kv_with_blob : KvLookup V → Option (List ℕ) → StateExecResult V
  kv_sign_url : String → ℕ → StateExecResult V
  global_kv : GlobalKv V → StateExecResult V
  global_kv_data : V → StateExecResult V
  global_kv_data_opaque : V → StateExecResult V

pub record StateExecResponse (V : Type 0) : Type 0 where
  pub results : List (StateExecResult V)
  pub tenant_state_changed : Bool
  pub new_tenant_state : Option TenantState

-- `crate::Error`: a message of the program, or an error of the database driver
pub data Error : Type 0 where
  message : String → Error
  sql : String → Error

-- What one operation is run with: `sample` is the random row id, `now` the time.
pub record Call : Type 0 where
  pub tid : TenantId
  pub flags : StateDbFlags
  pub now : ℕ
  pub sample : String
  pub fault : Option String

-- The database after a step and its answer: what was written before an error stays written.
abbrev pub Outcome : Type 0 → Type 0 → Type 0
Outcome V J = Db J × Result Error (StateExecResponse V)

module _ {V : Type 0} where
  -- `apply_one` and `apply`
  abbrev pub push : StateExecResult V → StateExecResponse V → StateExecResponse V
  push r resp = record resp { results = resp.results ++ r ∷ [] }

  unfoldable pub push_all : List (StateExecResult V) → StateExecResponse V → StateExecResponse V
  push_all [] resp = resp
  push_all (r ∷ rs) resp = push_all rs (push r resp)

module _ {V J : Type 0} where
  abbrev pub refuse : Db J → String → Outcome V J
  refuse db text = (db, err (message text))

  -- A statement is run, or refused by the driver.
  abbrev pub statement : Option String → Db J → Outcome V J → Outcome V J
  statement none db done = done
  statement (some e) db done = (db, err (sql e))

  -- The rows of an answer are decoded before they are pushed.
  abbrev pub answer : Db J → StateExecResponse V → Option (List (StateExecResult V)) → Outcome V J
  answer db resp none = (db, err (sql "column could not be decoded"))
  answer db resp (some rs) = (db, ok (push_all rs resp))

-- Decodes every row of an answer.
unfoldable pub decode_all : {A B : Type 0} → (A → Option B) → List A → Option (List B)
decode_all f [] = some []
decode_all f (r ∷ rs) = elim (f r) [
  | none ↦ none
  | some b ↦ elim (decode_all f rs) [ none ↦ none | some bs ↦ some (b ∷ bs) ]
]

unfoldable pub decode_optional : {A B : Type 0} → (A → Option B) → Option A → Option (List B)
decode_optional f none = some []
decode_optional f (some r) = elim (f r) [ none ↦ none | some b ↦ some (b ∷ []) ]
