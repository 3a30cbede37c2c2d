-- ===== src/Prelude/Clean.antt =====
-- Computations that leave the state alone when they end with an error.
use template_worker.Prelude.Results.{err, Result-cases}
use template_worker.Prelude.Actions.{Action, pure, transaction, ◌>>=◌}
use mathlib.Core.Path.{◌≡◌}
use mathlib.Core.Logic.{inl, inr}
use native.Mathlib.Omega.{arith}

module _ {S E A : Type 0} where
  -- The state is only read.
  abbrev pub Reads : Action S E A → Type 0
  Reads m = (s : S) → (m s).0 ≡ s

  abbrev pub IsClean : Action S E A → Type 0
  IsClean m = (s : S) (e : E) → (m s).1 ≡ err e → (m s).0 ≡ s

  pub transaction-IsClean : (m : Action S E A) → IsClean (transaction m)
  transaction-IsClean m s e h = ground arith

  pub Reads-IsClean : (m : Action S E A) → Reads m → IsClean m
  Reads-IsClean m r s e h = r s

module _ {S E A B : Type 0} where
  pub bind-IsClean :
      (m : Action S E A) (f : A → Action S E B)
      → Reads m
      → ((a : A) → IsClean (f a))
      → IsClean (m >>= f)
  bind-IsClean m f r k s e h = elim (Result-cases (m s).1) [
    | inl (a, q) ↦ grind (arith, k a (m s).0 e, r s)
    | inr (d, q) ↦ ground (arith, r s)
  ]

  pub bind_pure-IsClean :
      (m : Action S E A) (f : A → B) → IsClean m → IsClean (m >>= λ a. pure (f a))
  bind_pure-IsClean m f k s e h = ground (arith, k s e)

-- A part of the state that a computation leaves alone
module _ {S E T : Type 0} (part : S → T) where
  unfoldable pub Keeps : {A : Type 0} → Action S E A → Type 0
  Keeps m = (s : S) → part (m s).0 ≡ part s

  pub bind-Keeps :
      {A B : Type 0} (m : Action S E A) (f : A → Action S E B)
      → Keeps m
      → ((a : A) → Keeps (f a))
      → Keeps (m >>= f)
  unfolding Keeps
  bind-Keeps m f k l s = elim (Result-cases (m s).1) [
    | inl (a, q) ↦ ground (arith, l a (m s).0, k s)
    | inr (e, q) ↦ ground (arith, k s)
  ]
