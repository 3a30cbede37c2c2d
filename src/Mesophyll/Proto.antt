-- ===== src/Mesophyll/Proto.antt =====
-- The messages of src/mesophyll/server.rs: tenant ids, values of any type, and statuses.
use template_worker.Prelude.{
  ℕ, ◌≡◌, String, Result, ok, List, arith, nat_beq, map_err, if◌then◌else◌,
}
use Prim.Native.String.{◌++◌}
use template_worker.Worker.Tenant.{TenantId, guild, user, IsValid}

-- The codes of `tonic::Status` that the program answers with
pub data Status : Type 0 where
  internal permission_denied invalid_argument : String → Status

-- MessagePack for the values of one type. A field that is marked `serde(skip)` is not carried:
-- `received` says what arrives.
pub record Wire (A : Type 0) : Type 0 where
  pub to_vec : A → Result String (List ℕ)
  pub from_slice : List ℕ → Result String A
  pub received : A → A
  pub from_slice-to_vec : (a : A) (b : List ℕ) → to_vec a ≡ ok b → from_slice b ≡ ok (received a)

module _ {A : Type 0} (wire : Wire A) where
  -- `from_real_exec` and `to_real_exec`, with `encode_any` and `decode_any`
  unfoldable pub from_real_exec : A → Result String (List ℕ)
  from_real_exec a =
      map_err (λ e. "Failed to encode response value: Failed to serialize Mesophyll any: " ++ e)
        (wire.to_vec a)

  unfoldable pub to_real_exec : List ℕ → Result String A
  to_real_exec b =
      map_err (λ e. "Failed to decode request value: Failed to deserialize Mesophyll any: " ++ e)
        (wire.from_slice b)

  -- `from_real` and `to_real`
  unfoldable pub from_real : A → Result Status (List ℕ)
  unfolding from_real_exec
  from_real a = map_err internal (from_real_exec a)

  unfoldable pub to_real : List ℕ → Result Status A
  unfolding to_real_exec
  to_real b = map_err internal (to_real_exec b)

-- `pb::Id` and `pb::TenantType`
pub data TenantType : Type 0 where
  user_type guild_type : TenantType

pub record PbId : Type 0 where
  pub tenant_id : ℕ
  pub tenant_type : TenantType

-- `u64::MAX`
abbrev pub u64_max : ℕ
u64_max = 18446744073709551615

abbrev typed_id : TenantType → ℕ → TenantId
typed_id user_type n = user n
typed_id guild_type n = guild n

unfoldable pub to_real_id : PbId → TenantId
to_real_id i = typed_id i.tenant_type (if nat_beq i.tenant_id u64_max then 0 else i.tenant_id)

unfoldable pub from_real_id : TenantId → PbId
from_real_id (user n) = record { tenant_id = n; tenant_type = user_type }
from_real_id (guild n) = record { tenant_id = n; tenant_type = guild_type }

-- A valid tenant id arrives as it was sent.
pub to_real_id-from_real_id : (id : TenantId) → IsValid id → to_real_id (from_real_id id) ≡ id
unfolding to_real_id from_real_id
to_real_id-from_real_id (user n) v = ground arith
to_real_id-from_real_id (guild n) v = ground arith
