-- ===== src/Worker/Dispatch/Subscribed.antt =====
-- Events against the subscriptions in the database.
use template_worker.Prelude.{
  ◌≡◌, ◌∙◌, ap, Bool, false, ◌&&◌, none, ok, arith, inl, inr, Option-cases, str_beq, string_eq,
}
use template_worker.Prelude.Dict.{contains_key, get}
use template_worker.Prelude.Rows.{any}
use template_worker.Worker.Tenant.{TenantId}
use template_worker.Geese.TenantState.{owned_by, get_tenant_state_for, is_default_event}
use template_worker.Geese.TenantState.Laws.{contains_key-get_tenant_state_for}
use template_worker.Mesophyll.Client.{Channel}
use template_worker.Worker.Node.{get_cached_tenant_state_for}
use template_worker.Worker.Coherence.{stored}
use template_worker.Worker.Dispatch.{Event, System, Run, dispatch_event_complex}
use template_worker.Worker.Dispatch.Laws.{dispatch_event_complex-unregistered}

module _ {R F D V J : Type 0} (ch : Channel V J) (x : Run R F D V J) (id : TenantId) (ev : Event D)
    (s : System R F J) where
  -- A row that subscribes the tenant to the event
  abbrev pub is_subscription : Bool
  is_subscription =
      any (λ r. owned_by ch.world.sf id r.owner_id r.owner_type && str_beq r.event ev.name)
        s.db.states.tenant_state_events

  stored_events :
      is_subscription ≡ false
      → contains_key ev.name (stored (get_tenant_state_for ch.world.sf id s.db.states)).events
        ≡ false
  unfolding get
  stored_events h = elim (Option-cases (get_tenant_state_for ch.world.sf id s.db.states)) [
    | inl q ↦ no_events q
    | inr (ts, q) ↦
        rw q (contains_key-get_tenant_state_for ch.world.sf id s.db.states ts ev.name q ∙ h)
  ]
    where
      no_events :
          get_tenant_state_for ch.world.sf id s.db.states ≡ none
          → contains_key ev.name (stored (get_tenant_state_for ch.world.sf id s.db.states)).events
            ≡ false
      no_events q = ap (λ o. contains_key ev.name (stored o).events) q

  -- An event that is no default event, and to which no row of the database subscribes the tenant, reaches no VM, makes none and is answered with null, where the tenant's cached state is the stored one.
  pub dispatch_event_complex-unsubscribed :
      get_cached_tenant_state_for id s.node
        ≡ stored (get_tenant_state_for ch.world.sf id s.db.states)
      → is_default_event ev.name ≡ false
      → is_subscription ≡ false
      → dispatch_event_complex ch x id ev s ≡ (s, ok x.null)
  dispatch_event_complex-unsubscribed current not_default none_there =
      dispatch_event_complex-unregistered ch x id ev s
        (ground (arith, current, not_default, stored_events none_there))
