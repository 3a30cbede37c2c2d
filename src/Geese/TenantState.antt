-- ===== src/Geese/TenantState.antt =====
-- src/geese/tenantstate.rs: the state of a tenant, and how it is put together from the rows of
-- the tables `tenant_state` and `tenant_state_events`.
pub mod Laws
pub mod Examples
use template_worker.Prelude.{
  ℕ, ◌/◌, ◌%◌, ◌*◌, ◌+◌, ltb, Bool, true, false, ◌&&◌, ◌||◌, String, Option, none, some, List, [],
  ◌∷◌, str_beq, nat_beq, if◌then◌else◌, string_eq,
}
use template_worker.Prelude.Int.{ℤ, pos, negsuc}
use template_worker.Prelude.Dict.{Dict, get, insert}
use template_worker.Prelude.Rows.{select, first, any}
use template_worker.Worker.Tenant.{TenantId, Snowflakes, tenant_type, tenant_id, from_parts, id_eq}

-- The bits BANNED and CAN_MANAGE_GUILD_COMMANDS of a `u8`.
pub record ModFlags : Type 0 where
  pub banned : Bool
  pub can_manage_guild_commands : Bool

abbrev pub empty_flags : ModFlags
empty_flags = record { banned = false; can_manage_guild_commands = false }

-- `1 << 0` and `1 << 1`
unfoldable pub bits : ModFlags → ℕ
bits f = (if f.banned then 1 else 0) + (if f.can_manage_guild_commands then 2 else 0)

-- Unknown bits are dropped.
unfoldable pub from_bits_truncate : ℕ → ModFlags
from_bits_truncate n = record {
  banned = nat_beq (n % 2) 1;
  can_manage_guild_commands = nat_beq (n / 2 % 2) 1;
}

-- `modflags.try_into().unwrap_or(0)`, from `i32` to `u8`
unfoldable pub to_u8 : ℤ → ℕ
to_u8 (pos n) = if ltb n 256 then n else 0
to_u8 (negsuc n) = 0

-- The keys of `events` are the events that a tenant has subscribed to, for the systems listed.
pub record TenantState : Type 0 where
  pub events : Dict String (List String)
  pub modflags : ModFlags

-- `TenantState::default`
abbrev pub default : TenantState
default = record { events = []; modflags = empty_flags }

-- A row of `tenant_state`
pub record TenantStatePartial : Type 0 where
  pub modflags : ℤ
  pub owner_id : String
  pub owner_type : String

-- A row of `tenant_state_events` and, grouped by event, of the query over it
pub record EventRow : Type 0 where
  pub owner_id : String
  pub owner_type : String
  pub event : String
  pub system : String

pub record TenantStateEventRefs : Type 0 where
  pub owner_id : String
  pub owner_type : String
  pub event : String
  pub systems : List String

-- `HashSet::from_iter`
unfoldable pub set_from_iter : List String → List String
unfolding any
set_from_iter [] = []
set_from_iter (s ∷ ss) =
    let rest = set_from_iter ss in if any (str_beq s) rest then rest else s ∷ rest

unfoldable pub partial_state : TenantStatePartial → TenantState
partial_state p = record { events = []; modflags = from_bits_truncate (to_u8 p.modflags) }

unfoldable pub add_refs : TenantState → TenantStateEventRefs → TenantState
add_refs state refs = record state {
  events = insert refs.event (set_from_iter refs.systems) state.events;
}

-- The loop of `into_tenant_state_single`
unfoldable pub add_all_refs : TenantState → List TenantStateEventRefs → TenantState
add_all_refs state [] = state
add_all_refs state (refs ∷ rest) = add_all_refs (add_refs state refs) rest

unfoldable pub into_tenant_state_single :
    TenantStatePartial → List TenantStateEventRefs → TenantState
into_tenant_state_single partial partial_refs = add_all_refs (partial_state partial) partial_refs

module _ (sf : Snowflakes) where
  abbrev insert_partial :
      Option TenantId → TenantStatePartial → Dict TenantId TenantState → Dict TenantId TenantState
  insert_partial none p states = states
  insert_partial (some id) p states = insert id (partial_state p) states

  -- The first loop of `into_tenant_state`: a row whose owner is not a tenant is skipped.
  unfoldable pub insert_partials :
      List TenantStatePartial → Dict TenantId TenantState → Dict TenantId TenantState
  insert_partials [] states = states
  insert_partials (p ∷ ps) states =
      insert_partials ps (insert_partial (from_parts sf p.owner_type p.owner_id) p states)

  abbrev or_default : Option TenantState → TenantState
  or_default none = default
  or_default (some s) = s

  abbrev insert_ref :
      Option TenantId → TenantStateEventRefs → Dict TenantId TenantState → Dict TenantId TenantState
  insert_ref none refs states = states
  insert_ref (some id) refs states = insert id (add_refs (or_default (get id states)) refs) states

  -- The second loop: `states.entry(id).or_insert(default)`, and the event is inserted there.
  unfoldable pub insert_refs :
      List TenantStateEventRefs → Dict TenantId TenantState → Dict TenantId TenantState
  insert_refs [] states = states
  insert_refs (r ∷ rs) states =
      insert_refs rs (insert_ref (from_parts sf r.owner_type r.owner_id) r states)

  unfoldable pub into_tenant_state :
      List TenantStatePartial → List TenantStateEventRefs → Dict TenantId TenantState
  into_tenant_state partials partial_refs = insert_refs partial_refs (insert_partials partials [])

-- `array_agg(system) .. GROUP BY owner_id, owner_type, event`
abbrev pub same_group : EventRow → TenantStateEventRefs → Bool
same_group r g =
    str_beq g.owner_id r.owner_id && str_beq g.owner_type r.owner_type && str_beq g.event r.event

unfoldable pub add_to_group : EventRow → List TenantStateEventRefs → List TenantStateEventRefs
add_to_group r [] =
    record {
      owner_id = r.owner_id;
      owner_type = r.owner_type;
      event = r.event;
      systems = r.system ∷ [];
    }
    ∷ []
add_to_group r (g ∷ gs) =
    let rest = add_to_group r gs in
    if same_group r g then record g { systems = r.system ∷ g.systems } ∷ gs else g ∷ rest

unfoldable pub group_by_event : List EventRow → List TenantStateEventRefs
unfolding add_to_group
group_by_event [] = []
group_by_event (r ∷ rs) = add_to_group r (group_by_event rs)

-- The two tables
pub record StateTables : Type 0 where
  pub tenant_state : List TenantStatePartial
  pub tenant_state_events : List EventRow

module _ (sf : Snowflakes) where
  -- WHERE owner_id = $1 AND owner_type = $2
  abbrev pub owned_by : TenantId → String → String → Bool
  owned_by tid owner_id owner_type =
      str_beq owner_id (tenant_id sf tid) && str_beq owner_type (tenant_type tid)

  unfoldable pub get_tenant_state_for : TenantId → StateTables → Option TenantState
  get_tenant_state_for tid t =
      elim (first (λ p. owned_by tid p.owner_id p.owner_type) t.tenant_state) [
        | none ↦ none
        | some partial ↦ some (
            into_tenant_state_single partial (
              group_by_event
                (select (λ r. owned_by tid r.owner_id r.owner_type) t.tenant_state_events)))
      ]

-- `DEFAULT_EVENTS`
unfoldable pub is_default_event : String → Bool
is_default_event e =
    str_beq e "INTERACTION_CREATE" || str_beq e "WebSettings" || str_beq e "$UpdateTenantState"
