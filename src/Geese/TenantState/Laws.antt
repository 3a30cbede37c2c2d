-- ===== src/Geese/TenantState/Laws.antt =====
-- The state of a tenant against the rows that it was put together from.
use template_worker.Prelude.{
  ◌≡◌, refl, ◌∙◌, ap, Bool, false, ◌&&◌, ◌||◌, String, none, some, List, [], ◌∷◌, str_beq, eq_iff,
  arith, string_eq, inl, inr, Option-cases, Bool-cases,
}
use template_worker.Prelude.Int.{pos}
use template_worker.Prelude.Dict.{Dict, get, insert, contains_key, get-insert}
use template_worker.Prelude.Rows.{select, first, any}
use template_worker.Worker.Tenant.{TenantId, Snowflakes, from_parts, id_eq, beq, beq_iff}
use template_worker.Geese.TenantState.{
  ModFlags, bits, from_bits_truncate, to_u8, TenantState, TenantStatePartial, EventRow,
  TenantStateEventRefs, partial_state, add_refs, add_all_refs, set_from_iter,
  into_tenant_state_single, insert_partials, insert_refs, into_tenant_state, add_to_group,
  group_by_event, StateTables, owned_by, get_tenant_state_for, or_default,
}

-- The moderation flags that are stored are the flags that are read back.
pub from_bits_truncate-bits : (f : ModFlags) → from_bits_truncate (to_u8 (pos (bits f))) ≡ f
unfolding from_bits_truncate to_u8 bits
from_bits_truncate-bits f = ground arith

contains_key-add_all_refs :
    (e : String) (state : TenantState) (refs : List TenantStateEventRefs)
    → contains_key e (add_all_refs state refs).events
      ≡ (contains_key e state.events || any (λ g. str_beq g.event e) refs)
unfolding add_all_refs add_refs any
contains_key-add_all_refs e state [] = ground arith
contains_key-add_all_refs e state (g ∷ gs) = ground (
  arith,
  contains_key-add_all_refs e (add_refs state g) gs,
  get-insert g.event e (set_from_iter g.systems) state.events,
)

any-add_to_group :
    (e : String) (r : EventRow) (gs : List TenantStateEventRefs)
    → any (λ g. str_beq g.event e) (add_to_group r gs)
      ≡ (str_beq r.event e || any (λ g. str_beq g.event e) gs)
unfolding add_to_group any
any-add_to_group e r [] = refl
any-add_to_group e r (g ∷ gs) =
    ground
      (arith, any-add_to_group e r gs, eq_iff g.event r.event, eq_iff r.event e, eq_iff g.event e)

any-group_by_event :
    (e : String) (rows : List EventRow)
    → any (λ g. str_beq g.event e) (group_by_event rows) ≡ any (λ r. str_beq r.event e) rows
unfolding group_by_event any
any-group_by_event e [] = refl
any-group_by_event e (r ∷ rs) =
    any-add_to_group e r (group_by_event rs)
    ∙ ap (λ b. str_beq r.event e || b) (any-group_by_event e rs)

any-select :
    {A : Type 0} (p q : A → Bool) (rows : List A)
    → any p (select q rows) ≡ any (λ r. q r && p r) rows
unfolding any select
any-select p q [] = refl
any-select p q (r ∷ rs) = ground (arith, any-select p q rs)

module _ (sf : Snowflakes) (tid : TenantId) where
  -- A tenant's state has an event exactly when a row subscribes the tenant to that event.
  pub contains_key-get_tenant_state_for :
      (t : StateTables) (state : TenantState) (e : String)
      → get_tenant_state_for sf tid t ≡ some state
      → contains_key e state.events
        ≡ any
            (λ r. owned_by sf tid r.owner_id r.owner_type && str_beq r.event e)
            t.tenant_state_events
  unfolding get_tenant_state_for into_tenant_state_single partial_state get
  contains_key-get_tenant_state_for t state e h =
      elim (Option-cases (first (λ p. owned_by sf tid p.owner_id p.owner_type) t.tenant_state)) [
        | inl q ↦ absurd (ground (arith, q))
        | inr (p, q) ↦ ground (
          arith,
          q,
          contains_key-add_all_refs e (partial_state p) (
              group_by_event
                (select (λ r. owned_by sf tid r.owner_id r.owner_type) t.tenant_state_events)),
          any-group_by_event e
              (select (λ r. owned_by sf tid r.owner_id r.owner_type) t.tenant_state_events),
          any-select (λ r. str_beq r.event e) (λ r. owned_by sf tid r.owner_id r.owner_type)
              t.tenant_state_events,
        )
      ]

  -- The rows whose owner is the tenant
  abbrev pub of_partial : TenantStatePartial → Bool
  of_partial p = elim (from_parts sf p.owner_type p.owner_id) [
    | none ↦ false
    | some id ↦ beq id tid
  ]

  abbrev pub of_refs : TenantStateEventRefs → Bool
  of_refs r = elim (from_parts sf r.owner_type r.owner_id) [ none ↦ false | some id ↦ beq id tid ]

  get-insert_refs :
      (refs : List TenantStateEventRefs) (states : Dict TenantId TenantState) (s : TenantState)
      → get tid states ≡ some s
      → get tid (insert_refs sf refs states) ≡ some (add_all_refs s (select of_refs refs))
  unfolding insert_refs add_all_refs select
  get-insert_refs [] states s h = h
  get-insert_refs (r ∷ rs) states s h =
      elim (Option-cases (from_parts sf r.owner_type r.owner_id)) [
        | inl q ↦ ground (arith, q, get-insert_refs rs states s h)
        | inr (id, q) ↦
            let changed = add_refs (or_default sf (get id states)) r in
            elim (Bool-cases (beq id tid)) [
              | inl b ↦
                  let e = (beq_iff id tid).0 b in
                  ground (
                    arith,
                    q,
                    b,
                    e,
                    h,
                    get-insert_refs rs (insert id changed states) (add_refs s r),
                    get-insert id tid changed states,
                  )
              | inr b ↦ ground (
                arith,
                q,
                b,
                h,
                get-insert_refs rs (insert id changed states) s,
                get-insert id tid changed states,
              )
            ]
      ]

  get-insert_partials_none :
      (ps : List TenantStatePartial) (states : Dict TenantId TenantState)
      → any of_partial ps ≡ false
      → get tid (insert_partials sf ps states) ≡ get tid states
  unfolding insert_partials any
  get-insert_partials_none [] states h = refl
  get-insert_partials_none (p ∷ ps) states h =
      elim (Option-cases (from_parts sf p.owner_type p.owner_id)) [
        | inl q ↦ ground (arith, q, get-insert_partials_none ps states)
        | inr (id, q) ↦ ground (
          arith,
          q,
          get-insert_partials_none ps (insert id (partial_state p) states),
          get-insert id tid (partial_state p) states,
        )
      ]

  any-select-nil :
      {A : Type 0} (p : A → Bool) (rows : List A) → select p rows ≡ [] → any p rows ≡ false
  unfolding any select
  any-select-nil p [] h = refl
  any-select-nil p (r ∷ rs) h = ground (arith, any-select-nil p rs)

  get-insert_partials :
      (ps : List TenantStatePartial) (states : Dict TenantId TenantState) (p : TenantStatePartial)
      → select of_partial ps ≡ p ∷ []
      → get tid (insert_partials sf ps states) ≡ some (partial_state p)
  unfolding insert_partials select
  get-insert_partials [] states p h = ground arith
  get-insert_partials (a ∷ ps) states p h =
      elim (Option-cases (from_parts sf a.owner_type a.owner_id)) [
        | inl q ↦ ground (arith, q, get-insert_partials ps states p)
        | inr (id, q) ↦ ground (
          arith,
          q,
          beq_iff id tid,
          any-select-nil of_partial ps,
          get-insert_partials ps (insert id (partial_state a) states) p,
          get-insert_partials_none ps (insert id (partial_state a) states),
          get-insert id tid (partial_state a) states,
        )
      ]

  -- The states that are loaded for all tenants at once agree, for a tenant with one state row, with the state that is put together from that tenant's rows alone.
  pub get-into_tenant_state :
      (partials : List TenantStatePartial) (refs : List TenantStateEventRefs)
      (p : TenantStatePartial)
      → select of_partial partials ≡ p ∷ []
      → get tid (into_tenant_state sf partials refs)
        ≡ some (into_tenant_state_single p (select of_refs refs))
  unfolding into_tenant_state into_tenant_state_single
  get-into_tenant_state partials refs p h =
      get-insert_refs refs (insert_partials sf partials []) (partial_state p)
        (get-insert_partials partials [] p h)
