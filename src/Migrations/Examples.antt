-- ===== src/Migrations/Examples.antt =====
-- The migrations of src/migrations/mod.rs over tables that count what was done to them.
use template_worker.Prelude.{ℕ, ◌≡◌, ◌+◌, refl, none, ok, err, [], String, str_beq, if◌then◌else◌}
use template_worker.Prelude.Actions.{Action, modify}
use template_worker.Prelude.Rows.{any}
use template_worker.Migrations.{
  Database, Faults, migrations, apply_migrations, apply_all, apply_migration,
  check_migration_applied, mark_migration_applied, panicked,
}
use template_worker.Migrations.Laws.{apply_migrations-apply_migrations}

abbrev count : String → Action ℕ String (Unit {0})
count id = modify (λ n. n + 1)

-- One migration fails after it has written.
abbrev count_but_backups : String → Action ℕ String (Unit {0})
count_but_backups id n = (n + 1, if str_beq id "seaweed_to_blob" then err "no bucket" else ok tt)

abbrev quiet : Faults
quiet = record { create_fault = none; check_fault = λ id. none; mark_fault = λ id. none }

abbrev new_database : Database ℕ
new_database = record { applied = []; tables = 0 }

applies_all : (apply_migrations count quiet (migrations count) new_database).0.tables ≡ 14
unfolding apply_migrations apply_all apply_migration check_migration_applied mark_migration_applied
    any
applies_all = refl

succeeds : (apply_migrations count quiet (migrations count) new_database).1 ≡ ok tt
unfolding apply_migrations apply_all apply_migration check_migration_applied mark_migration_applied
    any
succeeds = refl

-- The last migration panics; a later run does it alone, and what it had written counts twice.
resumes :
    ((apply_migrations count quiet (migrations count_but_backups) new_database).1
      ≡ err (panicked "no bucket"))
    × ((apply_migrations count quiet
          (migrations count)
          (apply_migrations count quiet (migrations count_but_backups) new_database).0).0.tables
        ≡ 15)
unfolding apply_migrations apply_all apply_migration check_migration_applied mark_migration_applied
    any
resumes = (refl, refl)

apply_migrations-apply_migrations_example :
    apply_migrations count quiet
      (migrations count)
      (apply_migrations count quiet (migrations count) new_database).0
    ≡ ((apply_migrations count quiet (migrations count) new_database).0, ok tt)
apply_migrations-apply_migrations_example =
    apply_migrations-apply_migrations count quiet quiet (migrations count) new_database succeeds
      refl (λ id. refl)
