-- ===== src/Worker/Vms.antt =====
-- The VMs and the cached states of a worker's tenants: each operation touches one tenant only.
use template_worker.Prelude.{
  ◌≡◌, ◌≢◌, String, none, Result, ok, arith, inl, inr, Option-cases, Result-cases, if◌then◌else◌,
  eq-false-of-ne, ==_refl,
}
use template_worker.Prelude.Dict.{get, get-insert, get-remove}
use template_worker.Worker.Tenant.{TenantId, id_eq}
use template_worker.Geese.TenantState.{TenantState}
use template_worker.Worker.Node.{
  Luau, VmState, Node, get_cached_tenant_state_for, create_vm, get_vm_for, remove_vm_for,
  reload_for_tenant,
}

module _ {R F : Type 0} (luau : Luau R F) (id : TenantId) (n n' : Node R F) (vm : VmState R F) where
  -- A tenant has one VM: once it was made or found, it is found from then on, whatever the Lua runtime would answer.
  pub get_vm_for-again :
      (luau' : Luau R F) → get_vm_for luau id n ≡ (n', ok vm) → get_vm_for luau' id n' ≡ (n', ok vm)
  unfolding get_vm_for
  get_vm_for-again luau' h = elim (Option-cases (get id n.vms)) [
    | inr (old, q) ↦ ground (arith, q)
    | inl q ↦ elim (Result-cases (create_vm luau id n)) [
      | inr (e, p) ↦ absurd (ground (arith, q, p))
      | inl (new, p) ↦ ground (arith, q, p, get-insert id id new n.vms, ==_refl id)
    ]
  ]

module _ {R F : Type 0} (luau : Luau R F) (id j : TenantId) (n : Node R F) where
  -- Asking for a tenant's VM keeps the VMs of the other tenants, and every cached state.
  pub get_vm_for_keeps :
      id ≢ j
      → (get j (get_vm_for luau id n).0.vms ≡ get j n.vms)
        × ((get_vm_for luau id n).0.cache ≡ n.cache)
  unfolding get_vm_for
  get_vm_for_keeps apart = elim (Option-cases (get id n.vms)) [
    | inr (old, q) ↦ ground (arith, q)
    | inl q ↦ elim (Result-cases (create_vm luau id n)) [
      | inr (e, p) ↦ ground (arith, q, p)
      | inl (new, p) ↦ ground (arith, q, p, get-insert id j new n.vms, eq-false-of-ne id j apart)
    ]
  ]

module _ {R F : Type 0} (mark_broken : R → Result String (Unit {0})) (id : TenantId)
    (ts : TenantState) (n : Node R F) where
  -- A reload leaves the tenant with the new state, and with no VM if the tenant is banned, also where the runtime could not be marked broken.
  pub reload_for_tenant_lem :
      (get_cached_tenant_state_for id (reload_for_tenant mark_broken id ts n).0 ≡ ts)
      × (get id (reload_for_tenant mark_broken id ts n).0.vms
          ≡ (if ts.modflags.banned then none else get id n.vms))
  unfolding reload_for_tenant remove_vm_for get_cached_tenant_state_for
  reload_for_tenant_lem = elim (Option-cases (get id n.vms)) [
    | inl q ↦ ground (arith, q, get-insert id id ts n.cache, get-remove id id n.vms, ==_refl id)
    | inr (vm, q) ↦ elim (Result-cases (mark_broken vm.runtime)) [
      | inl (u, p) ↦
          ground (arith, q, p, get-insert id id ts n.cache, get-remove id id n.vms, ==_refl id)
      | inr (e, p) ↦
          ground (arith, q, p, get-insert id id ts n.cache, get-remove id id n.vms, ==_refl id)
    ]
  ]

  -- A reload keeps the VMs and the cached states of the other tenants.
  pub reload_for_tenant_keeps :
      (j : TenantId)
      → id ≢ j
      → (get j (reload_for_tenant mark_broken id ts n).0.vms ≡ get j n.vms)
        × (get j (reload_for_tenant mark_broken id ts n).0.cache ≡ get j n.cache)
  unfolding reload_for_tenant remove_vm_for
  reload_for_tenant_keeps j apart = elim (Option-cases (get id n.vms)) [
    | inl q ↦
        ground
          (arith, q, get-insert id j ts n.cache, get-remove id j n.vms, eq-false-of-ne id j apart)
    | inr (vm, q) ↦ elim (Result-cases (mark_broken vm.runtime)) [
      | inl (u, p) ↦ ground (
        arith,
        q,
        p,
        get-insert id j ts n.cache,
        get-remove id j n.vms,
        eq-false-of-ne id j apart,
      )
      | inr (e, p) ↦ ground (
        arith,
        q,
        p,
        get-insert id j ts n.cache,
        get-remove id j n.vms,
        eq-false-of-ne id j apart,
      )
    ]
  ]
