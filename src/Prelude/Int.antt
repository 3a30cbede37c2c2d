-- ===== src/Prelude/Int.antt =====
-- Signed integers of the database (INTEGER and BIGINT): they are stored, compared and read back.
use Prim.Native.Nat.{ℕ}
use mathlib.Core.Path.{◌≡◌}
use mathlib.Core.Logic.{◌↔◌}
use mathlib.Core.Bool.{Bool, true, false}
use native.Mathlib.Omega.{arith}
use template_worker.Prelude.Tests.{Eq, nat_beq}

-- `negsuc n` is -(n + 1).
pub data ℤ : Type 0 where
  pos : ℕ → ℤ
  negsuc : ℕ → ℤ

abbrev pub beq : ℤ → ℤ → Bool
beq (pos a) (pos b) = nat_beq a b
beq (negsuc a) (negsuc b) = nat_beq a b
beq _ _ = false

pub beq_iff : (a b : ℤ) → (beq a b ≡ true) ↔ (a ≡ b)
beq_iff (pos a) (pos b) = ground arith
beq_iff _ _ = ground arith

instance abbrev pub int_eq : Eq ℤ
int_eq = record { beq = beq; beq_iff = beq_iff }
