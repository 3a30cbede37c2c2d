-- ===== src/Migrations/Laws.antt =====
-- What two runs of src/migrations/mod.rs do, one after the other.
use mathlib.Core.Path.{◌≡◌, refl}
use native.Mathlib.Omega.{arith}
use template_worker.Prelude.{
  Bool, true, ◌&&◌, String, none, ok, List, [], ◌∷◌, str_beq, string_eq, Option-cases, Bool-cases,
  Result-cases, inl, inr,
}
use template_worker.Prelude.Actions.{Action}
use template_worker.Prelude.Rows.{any, any-append}
use template_worker.Migrations.{
  MigrationType, Database, Faults, name_of, up_of, check_migration_applied, mark_migration_applied,
  apply_migration, apply_all, apply_migrations, rust, luau,
}

module _ {D : Type 0} (lua : String → Action D String (Unit {0})) where
  up_keeps : (m : MigrationType D) (db : Database D) → (up_of lua m db).0.applied ≡ db.applied
  up_keeps (rust m) db = refl
  up_keeps (luau name) db = refl

  mark_adds :
      (f : Faults) (id k : String) (db : Database D)
      → any (str_beq k) db.applied ≡ true
      → any (str_beq k) (mark_migration_applied lua f id db).0.applied ≡ true
  unfolding mark_migration_applied any
  mark_adds f id k db h = elim (Option-cases (f.mark_fault id)) [
    | inr (e, q) ↦ ground (arith, q)
    | inl q ↦ elim (Bool-cases (any (str_beq id) db.applied)) [
      | inl p ↦ ground (arith, q, p)
      | inr p ↦ ground (arith, q, p, any-append (str_beq k) db.applied (id ∷ []))
    ]
  ]

  mark_marks :
      (f : Faults) (id : String) (db : Database D)
      → (mark_migration_applied lua f id db).1 ≡ ok tt
      → any (str_beq id) (mark_migration_applied lua f id db).0.applied ≡ true
  unfolding mark_migration_applied any
  mark_marks f id db h = elim (Option-cases (f.mark_fault id)) [
    | inr (e, q) ↦ absurd (ground (arith, q))
    | inl q ↦ elim (Bool-cases (any (str_beq id) db.applied)) [
      | inl p ↦ absurd (ground (arith, q, p))
      | inr p ↦
          ground
            (arith, q, p, any-append (str_beq id) db.applied (id ∷ []), string_eq.beq_iff id id)
    ]
  ]

  -- A migration adds to the table of those that are applied, if anything.
  apply_migration_adds :
      (f : Faults) (m : MigrationType D) (k : String) (db : Database D)
      → any (str_beq k) db.applied ≡ true
      → any (str_beq k) (apply_migration lua f m db).0.applied ≡ true
  unfolding apply_migration check_migration_applied
  apply_migration_adds f m k db h = elim (Option-cases (f.check_fault (name_of lua m))) [
    | inr (e, q) ↦ ground (arith, q)
    | inl q ↦ elim (Bool-cases (any (str_beq (name_of lua m)) db.applied)) [
      | inl p ↦ ground (arith, q, p)
      | inr p ↦ elim (Result-cases (up_of lua m db).1) [
        | inr (e, d) ↦ ground (arith, q, p, d, up_keeps m db)
        | inl (u, d) ↦ ground (
          arith,
          q,
          p,
          d,
          mark_adds f (name_of lua m) k (up_of lua m db).0 (ground (arith, up_keeps m db)),
        )
      ]
    ]
  ]

  applied_after :
      (f : Faults) (m : MigrationType D) (db : Database D)
      → (apply_migration lua f m db).1 ≡ ok tt
      → any (str_beq (name_of lua m)) (apply_migration lua f m db).0.applied ≡ true
  unfolding apply_migration check_migration_applied
  applied_after f m db h = elim (Option-cases (f.check_fault (name_of lua m))) [
    | inr (e, q) ↦ absurd (ground (arith, q))
    | inl q ↦ elim (Bool-cases (any (str_beq (name_of lua m)) db.applied)) [
      | inl p ↦ ground (arith, q, p)
      | inr p ↦ elim (Result-cases (up_of lua m db).1) [
        | inr (e, d) ↦ absurd (ground (arith, q, p, d))
        | inl (u, d) ↦ ground (
          arith,
          q,
          p,
          d,
          mark_marks f (name_of lua m) (up_of lua m db).0 (ground (arith, q, p, d)),
        )
      ]
    ]
  ]

  apply_all_adds :
      (f : Faults) (ms : List (MigrationType D)) (k : String) (db : Database D)
      → any (str_beq k) db.applied ≡ true
      → any (str_beq k) (apply_all lua f ms db).0.applied ≡ true
  unfolding apply_all
  apply_all_adds f [] k db h = h
  apply_all_adds f (m ∷ ms) k db h = elim (Result-cases (apply_migration lua f m db).1) [
    | inr (e, q) ↦ ground (arith, q, apply_migration_adds f m k db h)
    | inl (u, q) ↦ ground (
      arith,
      q,
      apply_all_adds f ms k (apply_migration lua f m db).0 (apply_migration_adds f m k db h),
    )
  ]

  -- Every migration of a list is recorded as applied.
  abbrev are_applied : List (MigrationType D) → Database D → Bool
  are_applied [] db = true
  are_applied (m ∷ ms) db = any (str_beq (name_of lua m)) db.applied && are_applied ms db

  apply_all_applies :
      (f : Faults) (ms : List (MigrationType D)) (db : Database D)
      → (apply_all lua f ms db).1 ≡ ok tt
      → are_applied ms (apply_all lua f ms db).0 ≡ true
  unfolding apply_all
  apply_all_applies f [] db h = refl
  apply_all_applies f (m ∷ ms) db h = elim (Result-cases (apply_migration lua f m db).1) [
    | inr (e, q) ↦ absurd (ground (arith, q))
    | inl (u, q) ↦ ground (
      arith,
      q,
      apply_all_applies f ms (apply_migration lua f m db).0 (ground (arith, q)),
      apply_all_adds f ms (name_of lua m) (apply_migration lua f m db).0
          (applied_after f m db (ground (arith, q))),
    )
  ]

  skips :
      (f : Faults) (ms : List (MigrationType D)) (db : Database D)
      → ((id : String) → f.check_fault id ≡ none)
      → are_applied ms db ≡ true
      → apply_all lua f ms db ≡ (db, ok tt)
  unfolding apply_all apply_migration check_migration_applied
  skips f [] db c h = refl
  skips f (m ∷ ms) db c h = ground (arith, c (name_of lua m), skips f ms db c (ground (arith, h)))

  -- After a run that succeeded, another one over a database that answers does nothing, whatever the
  -- migrations do: no migration is applied twice.
  pub apply_migrations-apply_migrations :
      (f g : Faults) (ms : List (MigrationType D)) (db : Database D)
      → (apply_migrations lua f ms db).1 ≡ ok tt
      → g.create_fault ≡ none
      → ((id : String) → g.check_fault id ≡ none)
      → apply_migrations lua g ms (apply_migrations lua f ms db).0
        ≡ ((apply_migrations lua f ms db).0, ok tt)
  unfolding apply_migrations
  apply_migrations-apply_migrations f g ms db h n c = elim (Option-cases f.create_fault) [
    | inr (e, q) ↦ absurd (ground (arith, q))
    | inl q ↦ ground (
      arith,
      q,
      n,
      skips g ms (apply_all lua f ms db).0 c (apply_all_applies f ms db (ground (arith, q))),
    )
  ]
