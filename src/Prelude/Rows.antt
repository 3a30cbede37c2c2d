-- ===== src/Prelude/Rows.antt =====
-- A database table as the list of its rows, and the clauses of SQL statements over it. A query
-- without ORDER BY answers in the order of the list.
use template_worker.Prelude.Tests.{if◌then◌else◌, Bool-cases}
use Prim.Native.Nat.{ℕ, suc}
use mathlib.Core.Path.{◌≡◌, refl}
use mathlib.Core.Logic.{inl, inr}
use mathlib.Core.Bool.{Bool, true, false, ◌||◌, ◌&&◌, not}
use mathlib.Core.Option.{Option, none, some}
use mathlib.Core.List.{List, [], ◌∷◌, ◌++◌, append-nil}
use native.Mathlib.Omega.{arith}

module _ {ℓ} {A : Type ℓ} where
  abbrev pub length : List A → ℕ
  length [] = 0
  length (x ∷ xs) = suc (length xs)

  -- SELECT .. WHERE p, fetched whole
  unfoldable pub select : (A → Bool) → List A → List A
  select p [] = []
  select p (r ∷ rs) = let rest = select p rs in if p r then r ∷ rest else rest

  -- SELECT .. WHERE p, of which the first row is fetched
  unfoldable pub first : (A → Bool) → List A → Option A
  first p [] = none
  first p (r ∷ rs) = let rest = first p rs in if p r then some r else rest

  unfoldable pub any : (A → Bool) → List A → Bool
  any p [] = false
  any p (r ∷ rs) = p r || any p rs

  -- DELETE .. WHERE p
  unfoldable pub delete : (A → Bool) → List A → List A
  delete p [] = []
  delete p (r ∷ rs) = let rest = delete p rs in if p r then rest else r ∷ rest

  -- UPDATE .. SET f WHERE p
  unfoldable pub update : (A → Bool) → (A → A) → List A → List A
  update p f [] = []
  update p f (r ∷ rs) = let rest = update p f rs in if p r then f r ∷ rest else r ∷ rest

  -- INSERT r .. ON CONFLICT (the rows of p) DO UPDATE SET f
  unfoldable pub upsert : (A → Bool) → (A → A) → A → List A → List A
  unfolding any update
  upsert p f r rs = if any p rs then update p f rs else rs ++ r ∷ []

  -- INSERT r .. ON CONFLICT (the rows of p) DO NOTHING
  unfoldable pub insert_new : (A → Bool) → A → List A → List A
  unfolding any
  insert_new p r rs = if any p rs then rs else rs ++ r ∷ []

  pub any-append : (p : A → Bool) (xs ys : List A) → any p (xs ++ ys) ≡ (any p xs || any p ys)
  unfolding any
  any-append p [] ys = refl
  any-append p (x ∷ xs) ys = ground (arith, any-append p xs ys)

  pub select-append :
      (p : A → Bool) (xs ys : List A) → select p (xs ++ ys) ≡ select p xs ++ select p ys
  unfolding select
  select-append p [] ys = refl
  select-append p (x ∷ xs) ys = ground (arith, select-append p xs ys)

  pub first-any : (p : A → Bool) (xs : List A) → any p xs ≡ false → first p xs ≡ none
  unfolding first any
  first-any p [] h = refl
  first-any p (x ∷ xs) h = ground (arith, first-any p xs)

  pub first-append-new :
      (p : A → Bool) (xs : List A) (r : A)
      → any p xs ≡ false
      → p r ≡ true
      → first p (xs ++ r ∷ []) ≡ some r
  unfolding first any
  first-append-new p [] r h e = ground arith
  first-append-new p (x ∷ xs) r h e = ground (arith, first-append-new p xs r)

  pub any-delete : (p : A → Bool) (xs : List A) → any p (delete p xs) ≡ false
  unfolding any delete
  any-delete p [] = refl
  any-delete p (x ∷ xs) = ground (arith, any-delete p xs)

  -- Rows that a statement does not match are still there, and no others come.
  pub select-delete :
      (q p : A → Bool)
      → ((r : A) → q r ≡ true → p r ≡ false)
      → (xs : List A) → select q (delete p xs) ≡ select q xs
  unfolding select delete
  select-delete q p h [] = refl
  select-delete q p h (x ∷ xs) = ground (arith, select-delete q p h xs, h x)

  pub select-update :
      (q p : A → Bool) (f : A → A)
      → ((r : A) → q r ≡ true → p r ≡ false)
      → ((r : A) → p r ≡ true → q (f r) ≡ false)
      → (xs : List A) → select q (update p f xs) ≡ select q xs
  unfolding select update
  select-update q p f h k [] = refl
  select-update q p f h k (x ∷ xs) = ground (arith, select-update q p f h k xs, h x, k x)

  pub select-upsert :
      (q p : A → Bool) (f : A → A) (r : A)
      → ((a : A) → q a ≡ true → p a ≡ false)
      → ((a : A) → p a ≡ true → q (f a) ≡ false)
      → q r ≡ false
      → (xs : List A) → select q (upsert p f r xs) ≡ select q xs
  unfolding upsert select
  select-upsert q p f r h k e xs =
      ground
        (arith, select-update q p f h k xs, select-append q xs (r ∷ []), append-nil (select q xs))

  pub select-insert_new :
      (q p : A → Bool) (r : A)
      → q r ≡ false
      → (xs : List A) → select q (insert_new p r xs) ≡ select q xs
  unfolding insert_new select
  select-insert_new q p r e xs =
      ground (arith, select-append q xs (r ∷ []), append-nil (select q xs))

  pub first-some : (p : A → Bool) (xs : List A) → any p xs ≡ true → (r : A) × (first p xs ≡ some r)
  unfolding first any
  first-some p [] h = absurd (ground arith)
  first-some p (x ∷ xs) h = elim (Bool-cases (p x)) [
    | inl e ↦ (x, rw e)
    | inr e ↦ rw e (first-some p xs (ground arith))
  ]

  pub any-weaken :
      (p q : A → Bool)
      → ((a : A) → p a ≡ true → q a ≡ true)
      → (xs : List A) → any p xs ≡ true
      → any q xs ≡ true
  unfolding any
  any-weaken p q k [] h = absurd (ground arith)
  any-weaken p q k (x ∷ xs) h = ground (arith, any-weaken p q k xs, k x)

  pub any-insert_new :
      (p : A → Bool) (r : A) (xs : List A) → p r ≡ true → any p (insert_new p r xs) ≡ true
  unfolding any insert_new
  any-insert_new p r xs h = ground (arith, any-append p xs (r ∷ []))

  pub delete_none : (p : A → Bool) (xs : List A) → any p xs ≡ false → delete p xs ≡ xs
  unfolding any delete
  delete_none p [] h = refl
  delete_none p (x ∷ xs) h = ground (arith, delete_none p xs)

  pub any_kept : (q p : A → Bool) (xs : List A) → any q xs ≡ false → any q (delete p xs) ≡ false
  unfolding any delete
  any_kept q p [] h = refl
  any_kept q p (x ∷ xs) h = ground (arith, any_kept q p xs)

  pub delete-append :
      (p : A → Bool) (xs ys : List A) → delete p (xs ++ ys) ≡ delete p xs ++ delete p ys
  unfolding delete
  delete-append p [] ys = refl
  delete-append p (x ∷ xs) ys = ground (arith, delete-append p xs ys)

  -- The row that a query finds passes its test.
  pub first_passes : (p : A → Bool) (xs : List A) (r : A) → first p xs ≡ some r → p r ≡ true
  unfolding first
  first_passes p [] r h = cc
  first_passes p (x ∷ xs) r h = ground (arith, first_passes p xs r)

  -- A query over the rows that a deletion leaves
  pub first-delete :
      (q p : A → Bool) (xs : List A) → first q (delete p xs) ≡ first (λ r. q r && not (p r)) xs
  unfolding first delete
  first-delete q p [] = refl
  first-delete q p (x ∷ xs) = ground (arith, first-delete q p xs)

  -- The first row of those that are left when other rows are deleted is a row that stays.
  pub first_kept :
      (q p : A → Bool) (xs : List A) (r : A) → first q (delete p xs) ≡ some r → p r ≡ false
  unfolding first delete
  first_kept q p [] r h = cc
  first_kept q p (x ∷ xs) r h = elim (Bool-cases (p x)) [
    | inl e ↦ first_kept q p xs r (ground arith)
    | inr e ↦ elim (Bool-cases (q x)) [
      | inl f ↦ ground arith
      | inr f ↦ first_kept q p xs r (ground arith)
    ]
  ]

  -- An update of the rows of a query is seen by the query.
  pub first-update :
      (p : A → Bool) (f : A → A)
      → ((r : A) → p r ≡ true → p (f r) ≡ true)
      → (rows : List A) (r : A) → first p rows ≡ some r
      → first p (update p f rows) ≡ some (f r)
  unfolding first update
  first-update p f k [] r h = cc
  first-update p f k (x ∷ xs) r h = ground (arith, first-update p f k xs r, k x)

  -- What holds of an inserted and of every updated row holds of the row that is found afterwards.
  pub first-upsert :
      (p : A → Bool) (f : A → A) (r : A) (P : A → Type 0)
      → ((a : A) → p a ≡ true → p (f a) ≡ true)
      → p r ≡ true
      → P r
      → ((a : A) → p a ≡ true → P (f a))
      → (rows : List A) → (a : A) × (first p (upsert p f r rows) ≡ some a) × P a
  unfolding upsert
  first-upsert p f r P k e new old rows = elim (Bool-cases (any p rows)) [
    | inl h ↦
        let (a, q) = first-some p rows h in
        (f a, rw h (first-update p f k rows a q), old a (first_passes p rows a q))
    | inr h ↦ (r, rw h (first-append-new p rows r h e), new)
  ]
