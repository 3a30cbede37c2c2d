-- ===== src/Geese/State/Ops.antt =====
-- The operations of src/geese/state.rs, their classification and their flags. `V` is the type of
-- the values that tenants store (`KhronosValue`, crate khronos_runtime).
use template_worker.Prelude.{
  ℕ, ◌/◌, ◌%◌, ◌+◌, ◌≡◌, Bool, true, false, ◌&&◌, ◌||◌, not, String, Option, none, some, Result, ok,
  err, List, [], ◌∷◌, ltb, nat_beq, str_beq, if◌then◌else◌, arith,
}
use template_worker.Prelude.Int.{ℤ}
use template_worker.Prelude.Rows.{any}

-- The fields of `GlobalKvCreate`
pub record NewGlobalKv (V : Type 0) : Type 0 where
  pub key : String
  pub version : ℤ
  pub short : String
  pub public_metadata : V
  pub scope : String
  pub public_data : Bool
  pub long : Option String
  pub value : V

pub data StateOp (V : Type 0) : Type 0 where
  kv_find : String → String → StateOp V
  kv_get : String → String → StateOp V
  kv_get_with_blob : String → String → StateOp V
  kv_sign_url : String → String → StateOp V
  kv_set : String → String → V → Option (List ℕ) → StateOp V
  kv_delete : String → String → StateOp V
  global_kv_find : String → String → StateOp V
  global_kv_get : String → ℤ → String → StateOp V
  global_kv_create : NewGlobalKv V → StateOp V
  global_kv_delete : String → ℤ → String → StateOp V
  global_kv_get_data : String → ℤ → String → StateOp V
  subscribe_event : String → String → StateOp V
  unsubscribe_event : String → String → StateOp V

pub data FastStateReq : Type 0 where
  kv_sign_url : String → String → FastStateReq

module _ {V : Type 0} where
  unfoldable pub alters_tenant_state : StateOp V → Bool
  alters_tenant_state (StateOp.subscribe_event event system) = true
  alters_tenant_state (StateOp.unsubscribe_event event system) = true
  alters_tenant_state _ = false

  unfoldable pub is_faststate_eligible : StateOp V → Bool
  is_faststate_eligible (StateOp.kv_sign_url key scope) = true
  is_faststate_eligible _ = false

  -- One round of the second loop of `from_ops`; other operations are `unreachable!()` there.
  abbrev pub push_fast : StateOp V → List FastStateReq → List FastStateReq
  push_fast (StateOp.kv_sign_url key scope) reqs = FastStateReq.kv_sign_url key scope ∷ reqs
  push_fast _ reqs = reqs

  unfoldable pub convert_ops : List (StateOp V) → List FastStateReq
  convert_ops [] = []
  convert_ops (op ∷ ops) = push_fast op (convert_ops ops)

  -- The operations come back where one of them needs the master.
  unfoldable pub from_ops : List (StateOp V) → Result (List (StateOp V)) (List FastStateReq)
  unfolding is_faststate_eligible convert_ops any
  from_ops ops =
      if any (λ op. not (is_faststate_eligible op)) ops then err ops else ok (convert_ops ops)

-- The bits WORKER_INITIATED (`1 << 1`) and ADMIN (`1 << 2`) of a `u32`
pub record StateDbFlags : Type 0 where
  pub worker_initiated : Bool
  pub admin : Bool

abbrev pub no_flags : StateDbFlags
no_flags = record { worker_initiated = false; admin = false }

abbrev pub worker_flags : StateDbFlags
worker_flags = record { worker_initiated = true; admin = false }

abbrev pub admin_flags : StateDbFlags
admin_flags = record { worker_initiated = false; admin = true }

unfoldable pub bits : StateDbFlags → ℕ
bits f = (if f.worker_initiated then 2 else 0) + (if f.admin then 4 else 0)

-- `from_bits` refuses any bit that is not a flag.
unfoldable pub from_bits : ℕ → Option StateDbFlags
from_bits n =
    if nat_beq (n % 2) 0 && ltb n 8
    then some (record { worker_initiated = nat_beq (n / 2 % 2) 1; admin = nat_beq (n / 4 % 2) 1 })
    else none

unfoldable pub can_set_internal_scope : StateDbFlags → Bool
can_set_internal_scope f = f.worker_initiated || f.admin

unfoldable pub can_delete_internal_scope : StateDbFlags → String → Bool
can_delete_internal_scope f scope =
    if str_beq scope "#err" then true else f.worker_initiated || f.admin

-- The flags that a worker sends are the flags that the master reads.
pub from_bits-bits : (f : StateDbFlags) → from_bits (bits f) ≡ some f
unfolding from_bits bits
from_bits-bits f = ground arith
