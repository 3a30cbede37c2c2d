-- ===== src/Mesophyll/Startup.antt =====
-- What a worker asks for at its start: `list_tenant_states` and `base_worker_info` of
-- src/mesophyll/server.rs and client.rs, with `get_tenant_state` of src/geese/tenantstate.rs.
use template_worker.Prelude.{
  ℕ, ◌≡◌, ◌/◌, ◌%◌, ◌^◌, arith, Bool, ◌&&◌, String, Option, none, some, Result, ok, err, List, [],
  ◌∷◌, ltb, nat_beq, str_beq, map_err, or_else, ◌>>=◌, ◌>>◌, if◌then◌else◌, Result-cases, inl, inr,
}
use template_worker.Prelude.Dict.{Dict}
use template_worker.Prelude.Rows.{select, any}
use template_worker.Worker.Tenant.{TenantId, Snowflakes}
use template_worker.Geese.TenantState.{
  TenantState, TenantStatePartial, EventRow, StateTables, group_by_event, into_tenant_state,
}
use template_worker.Mesophyll.Proto.{Status, internal, Wire, from_real, to_real_exec}
use template_worker.Mesophyll.Server.{verify_worker}

-- The cast of a text to `bigint` in the database, which fails for other texts than numbers
abbrev Cast : Type 0
Cast = String → Option ℕ

-- `(owner_id::bigint >> 22) % $1 = $2`
abbrev pub in_shard : ℕ → ℕ → ℕ → Bool
in_shard num_workers id owner = nat_beq (owner / 2 ^ 22 % num_workers) id

-- A query whose condition casts a column fails where the cast of one row does.
unfoldable pub select_cast :
    Cast → ℕ → ℕ → List TenantStatePartial → Result String (List TenantStatePartial)
select_cast cast num_workers id [] = ok []
select_cast cast num_workers id (p ∷ ps) = do
  owner ← or_else (cast p.owner_id) "invalid input syntax for type bigint"
  rest ← select_cast cast num_workers id ps
  ok (if in_shard num_workers id owner then p ∷ rest else rest)

abbrev refused : Option String → Result String (Unit {0})
refused none = ok tt
refused (some e) = err e

-- The rows of `tenant_state_events` that are joined with one of the rows given
abbrev pub joined : List TenantStatePartial → EventRow → Bool
joined ps r = any (λ p. str_beq p.owner_id r.owner_id && str_beq p.owner_type r.owner_type) ps

-- The two queries, of which each may be refused by the driver; a tenant has one row in `tenant_state`
-- at most, its primary key.
unfoldable pub get_tenant_state :
    Snowflakes
    → Cast
    → Option String
    → Option String
    → ℕ
    → ℕ
    → StateTables
    → Result String (Dict TenantId TenantState)
unfolding select_cast
get_tenant_state sf cast fault1 fault2 id num_workers t = do
  refused fault1
  partials ← select_cast cast num_workers id t.tenant_state
  refused fault2
  ok (
      into_tenant_state sf partials
        (group_by_event (select (joined partials) t.tenant_state_events)))

module _ (sf : Snowflakes) (cast : Cast) (num_workers : ℕ)
    (states_wire : Wire (Dict TenantId TenantState)) (fault1 fault2 : Option String)
    (t : StateTables) where
  -- `MesophyllServer::list_tenant_states`
  unfoldable pub list_tenant_states : ℕ → Result Status (List ℕ)
  unfolding get_tenant_state verify_worker from_real
  list_tenant_states worker = do
    wid ← verify_worker num_workers worker
    ts ← map_err internal (get_tenant_state sf cast fault1 fault2 wid num_workers t)
    from_real states_wire ts

  -- `MesophyllClient::list_tenant_states`, while the connection stands
  unfoldable pub client_list_tenant_states :
      (Status → String) → ℕ → Result String (Dict TenantId TenantState)
  unfolding list_tenant_states to_real_exec
  client_list_tenant_states status_text worker = do
    bytes ← map_err status_text (list_tenant_states worker)
    to_real_exec states_wire bytes

  -- What a worker gets at its start are the states that the tables hold for its id, as the other side
  -- reads them.
  client_list_tenant_states-eq-ok :
      (status_text : Status → String) (worker : ℕ) (states : Dict TenantId TenantState)
      → client_list_tenant_states status_text worker ≡ ok states
      → (ts : Dict TenantId TenantState) × (get_tenant_state sf cast fault1 fault2 worker
            num_workers t
          ≡ ok ts)
        × (states ≡ states_wire.received ts)
  unfolding client_list_tenant_states list_tenant_states verify_worker from_real to_real_exec
  client_list_tenant_states-eq-ok status_text worker states h =
      elim (Result-cases (get_tenant_state sf cast fault1 fault2 worker num_workers t)) [
        | inr (e, q) ↦ absurd (ground (arith, q))
        | inl (ts, q) ↦ elim (Result-cases (states_wire.to_vec ts)) [
          | inr (e, p) ↦ absurd (ground (arith, q, p))
          | inl (bytes, p) ↦ (ts, q, ground (arith, q, p, states_wire.from_slice-to_vec ts bytes p))
        ]
      ]

-- `base_worker_info`: the number of workers, as a `u32`
unfoldable pub base_worker_info : ℕ → Result Status ℕ
base_worker_info num_workers =
    if ltb num_workers (2 ^ 32)
    then ok num_workers
    else err (internal "num_workers exceeds u32 max")
