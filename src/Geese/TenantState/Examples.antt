-- ===== src/Geese/TenantState/Examples.antt =====
-- Tenant states of concrete tables.
use template_worker.Prelude.{◌≡◌, refl, true, false, some, List, [], ◌∷◌, string_eq}
use template_worker.Prelude.Int.{pos}
use template_worker.Prelude.Dict.{get, insert}
use template_worker.Prelude.Rows.{select, first}
use template_worker.Worker.Tenant.{guild, user, id_eq, tenant_id, tenant_type, from_parts}
use template_worker.Worker.Tenant.Examples.{unary}
use template_worker.Geese.TenantState.{
  TenantState, TenantStatePartial, TenantStateEventRefs, StateTables, into_tenant_state,
  into_tenant_state_single, get_tenant_state_for, group_by_event, from_bits_truncate, to_u8,
  partial_state, add_refs, add_all_refs, set_from_iter,
}
use template_worker.Geese.TenantState.Laws.{get-into_tenant_state, of_refs}

abbrev tables : StateTables
tables = record {
  tenant_state = record { modflags = pos 2; owner_id = "11"; owner_type = "guild" } ∷ [];
  tenant_state_events =
      record { owner_id = "11"; owner_type = "guild"; event = "MESSAGE"; system = "a" }
      ∷ record { owner_id = "11"; owner_type = "guild"; event = "MESSAGE"; system = "b" }
      ∷ record { owner_id = "11"; owner_type = "user"; event = "OnStartup"; system = "a" }
      ∷ [];
}

abbrev state_of_guild : TenantState
state_of_guild = record {
  events = ("MESSAGE", "a" ∷ "b" ∷ []) ∷ [];
  modflags = record { banned = false; can_manage_guild_commands = true };
}

loaded : get_tenant_state_for unary (guild 2) tables ≡ some state_of_guild
unfolding get_tenant_state_for first select into_tenant_state_single group_by_event partial_state
    from_bits_truncate to_u8 add_all_refs add_refs set_from_iter insert tenant_id tenant_type
loaded = refl

abbrev partial : TenantStatePartial
partial = record { modflags = pos 1; owner_id = "111"; owner_type = "user" }

abbrev partials : List TenantStatePartial
partials = record { modflags = pos 0; owner_id = "1"; owner_type = "other" } ∷ partial ∷ []

abbrev refs : List TenantStateEventRefs
refs =
    record { owner_id = "111"; owner_type = "user"; event = "OnStartup"; systems = "a" ∷ [] } ∷ []

get-into_tenant_state_example :
    get (user 3) (into_tenant_state unary partials refs)
    ≡ some (into_tenant_state_single partial (select (of_refs unary (user 3)) refs))
unfolding select from_parts
get-into_tenant_state_example = get-into_tenant_state unary (user 3) partials refs partial refl
