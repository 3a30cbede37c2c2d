-- ===== src/Worker/Tenant.antt =====
-- Tenant ids, `Id` of src/worker/workervmmanager.rs. How a Discord id is written and read back
-- (`GuildId` and `UserId`, crate dapi) and the sharding function (`worker_id_for_tenant`, crate
-- stratum_common) are not part of the repository: they are the interface `Snowflakes`.
pub mod Examples
use template_worker.Prelude.{
  ℕ, ◌^◌, ◌-◌, ◌<◌, ◌≡◌, refl, ap, ◌↔◌, String, Bool, true, false, Option, none, some, arith,
  nat_beq, str_beq, if◌then◌else◌, Eq,
}

-- Ids are `u64` values other than `u64::MAX`.
abbrev pub max_id : ℕ
max_id = 2 ^ 64 - 1

-- What is printed is read back as the id that was printed.
pub record Snowflakes : Type 0 where
  pub show : ℕ → String
  pub parse : String → Option ℕ
  pub worker_id_for_tenant : ℕ → ℕ → ℕ
  pub parse-show : (n : ℕ) → n < max_id → parse (show n) ≡ some n

pub data TenantId : Type 0 where
  guild : ℕ → TenantId
  user : ℕ → TenantId

abbrev pub raw : TenantId → ℕ
raw (guild n) = n
raw (user n) = n

-- The id is one that the Discord id types can hold.
abbrev pub IsValid : TenantId → Type 0
IsValid t = raw t < max_id

abbrev pub beq : TenantId → TenantId → Bool
beq (guild a) (guild b) = nat_beq a b
beq (user a) (user b) = nat_beq a b
beq _ _ = false

pub beq_iff : (a b : TenantId) → (beq a b ≡ true) ↔ (a ≡ b)
beq_iff (guild a) (guild b) = ground arith
beq_iff _ _ = ground arith

instance abbrev pub id_eq : Eq TenantId
id_eq = record { beq = beq; beq_iff = beq_iff }

unfoldable pub tenant_type : TenantId → String
tenant_type (guild n) = "guild"
tenant_type (user n) = "user"

module _ (sf : Snowflakes) where
  unfoldable pub tenant_id : TenantId → String
  tenant_id (guild n) = sf.show n
  tenant_id (user n) = sf.show n

  unfoldable pub from_parts : String → String → Option TenantId
  from_parts ttype tid =
      if str_beq ttype "guild"
      then elim (sf.parse tid) [ none ↦ none | some gid ↦ some (guild gid) ]
      else if str_beq ttype "user"
      then elim (sf.parse tid) [ none ↦ none | some uid ↦ some (user uid) ]
      else none

  unfoldable pub worker_id : TenantId → ℕ → ℕ
  worker_id (guild n) num_workers = sf.worker_id_for_tenant n num_workers
  worker_id (user n) num_workers = sf.worker_id_for_tenant n num_workers

  -- The pair that a valid tenant is stored under names that tenant again.
  pub from_parts-tenant_id :
      (t : TenantId) → IsValid t → from_parts (tenant_type t) (tenant_id t) ≡ some t
  unfolding from_parts tenant_type tenant_id
  from_parts-tenant_id (guild n) v = ground (arith, sf.parse-show n)
  from_parts-tenant_id (user n) v = ground (arith, sf.parse-show n)
