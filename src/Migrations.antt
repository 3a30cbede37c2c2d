-- ===== src/Migrations.antt =====
-- src/migrations/mod.rs: the migrations that are not applied yet are applied in order, and recorded.
-- What a migration does to the tables is an argument, and so is the Luau runtime.
pub mod Laws
pub mod Examples
use template_worker.Prelude.{
  ℕ, Bool, String, Option, none, some, Result, ok, err, List, [], ◌∷◌, ◌++◌, str_beq, string_eq,
  if◌then◌else◌,
}
use template_worker.Prelude.Actions.{Action, pure, gets, lift, modify, ◌>>=◌, ◌>>◌}
use template_worker.Prelude.Rows.{any}

-- How a run ends before its end: an error is returned, or `expect` panics.
pub data Stop : Type 0 where
  returned : String → Stop
  panicked : String → Stop

-- `up` writes to the tables `D`.
pub record Migration (D : Type 0) : Type 0 where
  pub id : String
  pub up : Action D String (Unit {0})

pub data MigrationType (D : Type 0) : Type 0 where
  rust : Migration D → MigrationType D
  luau : String → MigrationType D

-- The table `_migrations_applied` and the others
pub record Database (D : Type 0) : Type 0 where
  pub applied : List String
  pub tables : D

-- The driver's error at the statements of a run, if any: the first one, and the look and the record
-- of each migration
pub record Faults : Type 0 where
  pub create_fault : Option String
  pub check_fault : String → Option String
  pub mark_fault : String → Option String

abbrev ran : Option String → Result Stop (Unit {0})
ran none = ok tt
ran (some e) = err (returned e)

module _ {D : Type 0} (apply_luau_migration : String → Action D String (Unit {0})) where
  abbrev Run : Type 0 → Type 0
  Run A = Action (Database D) Stop A

  -- `up` of a Rust migration is followed by `expect`, a Luau migration by `?`.
  abbrev pub on_tables : (String → Stop) → Action D String (Unit {0}) → Run (Unit {0})
  on_tables stop m db =
      let (t, r) = m db.tables in
      (record db { tables = t }, elim r [ ok u ↦ ok u | err e ↦ err (stop e) ])

  abbrev pub name_of : MigrationType D → String
  name_of (rust m) = m.id
  name_of (luau name) = name

  abbrev pub up_of : MigrationType D → Run (Unit {0})
  up_of (rust m) = on_tables panicked m.up
  up_of (luau name) = on_tables returned (apply_luau_migration name)

  module _ (f : Faults) where
    -- `SELECT COUNT(*) .. WHERE id = $1`, and whether it is positive
    unfoldable pub check_migration_applied : String → Run Bool
    unfolding any
    check_migration_applied id = do
      lift (ran (f.check_fault id))
      gets (λ db. any (str_beq id) db.applied)

    -- The id is the primary key.
    unfoldable pub mark_migration_applied : String → Run (Unit {0})
    unfolding any
    mark_migration_applied id = do
      lift (ran (f.mark_fault id))
      repeated ← gets (λ db. any (str_beq id) db.applied)
      if repeated
          then lift (err (returned "duplicate key value violates unique constraint"))
          else modify (λ db. record db { applied = db.applied ++ id ∷ [] })

    -- One turn of the loop
    unfoldable pub apply_migration : MigrationType D → Run (Unit {0})
    unfolding check_migration_applied mark_migration_applied
    apply_migration m = do
      already_applied ← check_migration_applied (name_of m)
      if already_applied then pure tt else (up_of m >> mark_migration_applied (name_of m))

    unfoldable pub apply_all : List (MigrationType D) → Run (Unit {0})
    unfolding apply_migration
    apply_all [] = pure tt
    apply_all (m ∷ ms) = apply_migration m >> apply_all ms

    -- `CREATE TABLE IF NOT EXISTS`, and the loop
    unfoldable pub apply_migrations : List (MigrationType D) → Run (Unit {0})
    unfolding apply_all
    apply_migrations ms = do lift (ran f.create_fault); apply_all ms

-- `MIGRATIONS`, with what each Rust migration does
abbrev pub migrations :
    {D : Type 0} → (String → Action D String (Unit {0})) → List (MigrationType D)
migrations {D} up =
    let own : String → MigrationType D = λ id. rust (record { id = id; up = up id }) in
    own "khronosvalue_v2"
    ∷ own "kv_generic"
    ∷ own "tenantstate"
    ∷ own "cleanup_v8"
    ∷ own "drop_tenant_kv_expires_at"
    ∷ own "tenantstate_data_to_flags"
    ∷ own "tenantstate_add_modflags"
    ∷ own "tenantstate_add_eventrefs"
    ∷ own "user_oauth_v2"
    ∷ own "tenant_state_drop_flags"
    ∷ own "tenant_kv_add_bytea"
    ∷ luau "stings.luau"
    ∷ own "kv_scope_unnest"
    ∷ own "seaweed_to_blob"
    ∷ []
