-- ===== src/Prelude/Actions.antt =====
-- Computations that read and write a state and may end with an error: `async fn f(&self, ..) ->
-- Result<A, E>` over shared tables and caches. What was written before an error stays written.
use template_worker.Prelude.Results.{Result, ok, err, Result-cases}
use mathlib.Core.Path.{◌≡◌}
use mathlib.Core.Logic.{inl, inr}
use native.Mathlib.Omega.{arith}
use template_worker.Prelude.Tests.{if◌then◌else◌}
use mathlib.Core.Bool.{Bool}

abbrev pub Action : Type 0 → Type 0 → Type 0 → Type 0
Action S E A = S → S × Result E A

module _ {S E A : Type 0} where
  abbrev pub pure : A → Action S E A
  pure a s = (s, ok a)

  abbrev pub throw : E → Action S E A
  throw e s = (s, err e)

  abbrev pub gets : (S → A) → Action S E A
  gets f s = (s, ok (f s))

  -- A result without a state, `?`
  abbrev pub lift : Result E A → Action S E A
  lift r s = (s, r)

  -- A step with its new state and its answer
  abbrev pub with_state : (S → S × A) → Action S E A
  with_state f s = let (s', a) = f s in (s', ok a)

  -- `begin`, the statements, `commit`: what a transaction wrote before an error is rolled back.
  abbrev pub transaction : Action S E A → Action S E A
  transaction m s = let (s', r) = m s in elim r [ ok a ↦ (s', ok a) | err e ↦ (s, err e) ]

infixl 5 ◌>>=◌ ◌>>◌
abbrev pub ◌>>=◌ : {S E A B : Type 0} → Action S E A → (A → Action S E B) → Action S E B
◌>>=◌ m f s = let (s', r) = m s in elim r [ ok a ↦ f a s' | err e ↦ (s', err e) ]

abbrev pub ◌>>◌ : {S E B : Type 0} → Action S E (Unit {0}) → Action S E B → Action S E B
m >> k = m >>= λ _. k

-- `if !test { return Err(e) }`
abbrev pub ensure : {S E : Type 0} → Bool → E → Action S E (Unit {0})
ensure b e s = (s, (if b then ok tt else err e))

abbrev pub modify : {S E : Type 0} → (S → S) → Action S E (Unit {0})
modify f s = (f s, ok tt)

-- Inversion of a computation that succeeds
pub bind-eq-ok :
    {S E A B : Type 0} (m : Action S E A) (f : A → Action S E B) (s : S) {out : B}
    → ((m >>= f) s).1 ≡ ok out
    → (a : A) × ((m s).1 ≡ ok a) × ((f a (m s).0).1 ≡ ok out)
bind-eq-ok m f s h = elim (Result-cases (m s).1) [
  | inl (a, q) ↦ (a, q, ground arith)
  | inr (e, q) ↦ absurd (ground arith)
]
