-- ===== src/Master/Bot/Modflags.antt =====
-- `AdminSetTenantStateModFlags` of src/master/syscall/bot.rs: the flags of a tenant, in the database
-- and in the message to its worker.
use template_worker.Prelude.{
  ℕ, ◌≡◌, true, String, refl, ap, ◌∙◌, none, some, ok, List, [], ◌∷◌, arith, ==_refl, string_eq,
}
use template_worker.Prelude.Int.{pos}
use template_worker.Prelude.Rows.{first, select, first-upsert}
use template_worker.Worker.Tenant.{TenantId, tenant_id, tenant_type}
use template_worker.Geese.TenantState.{
  ModFlags, TenantState, TenantStatePartial, TenantStateEventRefs, bits, from_bits_truncate, to_u8,
  owned_by, get_tenant_state_for, into_tenant_state_single, add_all_refs, add_refs, partial_state,
  group_by_event,
}
use template_worker.Geese.TenantState.Laws.{from_bits_truncate-bits}
use template_worker.Geese.State.Tables.{World, Db}
use template_worker.Geese.State.Exec.{Request}
use template_worker.Prelude.Actions.{pure, ◌>>=◌}
use template_worker.Geese.Signing.{Codec}
use template_worker.Geese.Feedticket.{Payload}
use template_worker.Master.Context.{MSyscallContext, is_secure}
use template_worker.Master.Handler.{Kinds, Handler, on_fleet}
use template_worker.Master.Bot.{Meets, admin_set_tenant_state_mod_flags, ack}
use template_worker.Master.Bot.Admin.{
  put_mod_flags, flags_row, set_mod_flags, admin_flags_call, exec,
}

-- No statement of a call on the tables is refused by the driver.
abbrev pub IsQuiet : Request → Type 0
IsQuiet rq =
    (rq.begin_fault ≡ none)
    × ((n : ℕ) → rq.faults n ≡ none)
    × (rq.reload_fault ≡ none)
    × (rq.commit_fault ≡ none)

add_all_refs_flags :
    (s : TenantState) (refs : List TenantStateEventRefs)
    → (add_all_refs s refs).modflags ≡ s.modflags
unfolding add_all_refs add_refs
add_all_refs_flags s [] = refl
add_all_refs_flags s (r ∷ rs) = add_all_refs_flags (add_refs s r) rs

module _ {V J : Type 0} (w : World V J) where
  row_found :
      (id : TenantId) (flags : ModFlags) (db : Db J)
      → (a : TenantStatePartial) × (first
            (λ p. owned_by w.sf id p.owner_id p.owner_type)
            (put_mod_flags w id flags db).states.tenant_state
          ≡ some a)
        × (a.modflags ≡ pos (bits flags))
  unfolding put_mod_flags
  row_found id flags db =
      first-upsert (λ p. owned_by w.sf id p.owner_id p.owner_type)
        (λ p. record p { modflags = pos (bits flags) }) (flags_row w id flags)
        (λ a. a.modflags ≡ pos (bits flags)) (λ a h. h)
        (ground (arith, ==_refl (tenant_id w.sf id), ==_refl (tenant_type id))) refl (λ a h. refl)
        db.states.tenant_state

  state_after :
      (id : TenantId) (flags : ModFlags) (db : Db J)
      → (ts : TenantState) × (get_tenant_state_for w.sf id (put_mod_flags w id flags db).states
          ≡ some ts)
        × (ts.modflags ≡ flags)
  unfolding get_tenant_state_for into_tenant_state_single partial_state
  state_after id flags db =
      let (a, q, e) = row_found id flags db in
      let refs = group_by_event (
        select (λ r. owned_by w.sf id r.owner_id r.owner_type)
          (put_mod_flags w id flags db).states.tenant_state_events) in
      (
        into_tenant_state_single a refs,
        rw (q, get_tenant_state_for) refl,
        add_all_refs_flags (partial_state a) refs
            ∙ ap (λ n. from_bits_truncate (to_u8 n)) e
            ∙ from_bits_truncate-bits flags,
      )

  -- Where the driver refuses nothing, the transaction succeeds, also for a tenant without a row: its
  -- answer is the state that the tables hold then, and it has the flags that were asked for.
  pub set_mod_flags_lem :
      (id : TenantId) (flags : ModFlags) (rq : Request) (db : Db J)
      → IsQuiet rq
      → (ts : TenantState) × (set_mod_flags w id flags rq db ≡ (put_mod_flags w id flags db, ok ts))
        × (get_tenant_state_for w.sf id (put_mod_flags w id flags db).states ≡ some ts)
        × (ts.modflags ≡ flags)
  unfolding set_mod_flags
  set_mod_flags_lem id flags rq db (b, f, r, c) =
      let (ts, q, e) = state_after id flags db in (ts, ground (arith, f 0), q, e)

module _ {V J C : Type 0} (k : Kinds V J) (w : World V J) (ft_codec : Codec Payload) (m : Meets C)
    (rq : Request) (bad_id : String) (ctx : MSyscallContext) where
  -- Where the context is secure and the driver refuses nothing, a call that sets the flags of a tenant
  -- commits them, also for a tenant without a row, and then tells the tenant's worker the state that the
  -- tables hold, which has the flags that were asked for: it ends as that message to the worker ends, with
  -- its error or with an acknowledgement.
  pub exec-admin_set_tenant_state_mod_flags :
      (id : TenantId) (flags : ModFlags) (h : Handler k)
      → is_secure ctx ≡ true
      → IsQuiet rq
      → (ts : TenantState) × (get_tenant_state_for w.sf id (put_mod_flags w id flags h.db).states
          ≡ some ts)
        × (ts.modflags ≡ flags)
        × (exec k w ft_codec m rq bad_id ctx (admin_set_tenant_state_mod_flags id flags) h
            ≡ (on_fleet k (k.pool.update_tenant_state id ts) >>= (λ reload. pure ack))
                (record h { db = put_mod_flags w id flags h.db }))
  unfolding exec admin_flags_call
  exec-admin_set_tenant_state_mod_flags id flags h s q =
      let (ts, e, f, g) = set_mod_flags_lem w id flags rq h.db q in (ts, f, g, ground (arith, e))
