-- ===== src/Master/Bot/Admin.antt =====
-- src/master/syscall/bot.rs: the calls of administration, and `exec` over all calls on the bot.
use template_worker.Prelude.{
  ℕ, Bool, true, false, ◌||◌, String, Option, none, some, Result, List, map_err, map_ok, or_else,
}
use template_worker.Prelude.Int.{pos}
use template_worker.Prelude.Actions.{
  Action, pure, gets, lift, modify, ensure, transaction, ◌>>=◌, ◌>>◌,
}
use template_worker.Prelude.Rows.{upsert}
use template_worker.Worker.Tenant.{TenantId, tenant_id, tenant_type}
use template_worker.Worker.SimpleEvent.{new_khronos_value}
use template_worker.Geese.Signing.{Codec}
use template_worker.Geese.Feedticket.{Payload}
use template_worker.Geese.TenantState.{
  ModFlags, TenantState, TenantStatePartial, bits, owned_by, get_tenant_state_for,
}
use template_worker.Geese.State.Ops.{StateOp, admin_flags}
use template_worker.Geese.State.Tables.{World, Db}
use template_worker.Geese.State.Exec.{do_op, Request}
use template_worker.Mesophyll.Server.{error_text}
use template_worker.Master.Context.{
  MSyscallContext, MSyscallError, generic, invalid_event, context_insecure, entity_not_found,
  is_secure, into_user_id,
}
use template_worker.Master.Handler.{Kinds, Handler, on_fleet, on_db, generic_err}
use template_worker.Master.Sessions.{ran}
use template_worker.Master.Bot.{
  MBotSyscall, MBotSyscallRet, Meets, to_status, starts_with_web, check_target, not_yourself,
  dispatch, feed_ticket_call, get_blob_call, get_bot_status_call, get_bot_commands, get_bot_config,
  get_bot_status, dispatch_event, dispatch_c_event, feed_ticket, get_blob_data,
  admin_relaxed_dispatch_event, admin_get_uncached_bot_status, admin_drop_tenant,
  admin_set_tenant_state_mod_flags, admin_state, admin_fetch_tenant_state, command_list, bot_config,
  bot_status, khronos, c_khronos, state_ret, tenant_state_ret, ack,
}

module _ {V J : Type 0} (w : World V J) where
  abbrev pub flags_row : TenantId → ModFlags → TenantStatePartial
  flags_row id flags = record {
    modflags = pos (bits flags);
    owner_id = tenant_id w.sf id;
    owner_type = tenant_type id;
  }

  -- INSERT .. ON CONFLICT (owner_id, owner_type) DO UPDATE SET modflags = EXCLUDED.modflags
  unfoldable pub put_mod_flags : TenantId → ModFlags → Db J → Db J
  unfolding upsert bits
  put_mod_flags id flags db = record db {
    states = record db.states {
      tenant_state =
          upsert (λ p. owned_by w.sf id p.owner_id p.owner_type)
            (λ p. record p { modflags = pos (bits flags) }) (flags_row id flags)
            db.states.tenant_state;
    };
  }

  -- A statement of a call, which the driver may refuse
  abbrev pub step : Option String → Action (Db J) MSyscallError (Unit {0})
  step fault = lift (generic_err (ran fault))

  -- The transaction of `AdminSetTenantStateModFlags`
  unfoldable pub set_mod_flags :
      TenantId → ModFlags → Request → Action (Db J) MSyscallError TenantState
  unfolding put_mod_flags get_tenant_state_for
  set_mod_flags id flags rq = transaction (do
    step rq.begin_fault
    step (rq.faults 0)
    modify (put_mod_flags id flags)
    step rq.reload_fault
    found ← gets (λ db. get_tenant_state_for w.sf id db.states)
    ts ← lift (or_else found (generic "failed to find tenant state after update"))
    step rq.commit_fault
    pure ts)

  -- The transaction of `AdminFetchTenantState`
  unfoldable pub fetch_tenant_state : TenantId → Request → Action (Db J) MSyscallError TenantState
  unfolding get_tenant_state_for
  fetch_tenant_state id rq = do
    step rq.begin_fault
    step rq.reload_fault
    found ← gets (λ db. get_tenant_state_for w.sf id db.states)
    step rq.commit_fault
    lift (or_else found (entity_not_found "tenant state not found"))

module _ {V J C : Type 0} (k : Kinds V J) (w : World V J) (ft_codec : Codec Payload) (m : Meets C)
    (rq : Request) (bad_id : String) (ctx : MSyscallContext) where
  abbrev Call : Type 0 → Type 0
  Call A = Action (Handler k) MSyscallError A

  -- `mock_id`, which is parsed, or the user of the context
  abbrev author_of : Option String → Result MSyscallError ℕ
  author_of none = into_user_id ctx
  author_of (some id) = generic_err (or_else (w.sf.parse id) bad_id)

  unfoldable pub relaxed_dispatch : TenantId → String → V → Bool → Bool → Option String → Call V
  unfolding check_target into_user_id
  relaxed_dispatch id name value allow_names allow_self mock_id = do
    ensure (allow_names || starts_with_web name) (invalid_event "Event name must start with Web")
    user_id ← lift (author_of mock_id)
    check_target k w ft_codec m ctx id user_id false allow_self (not_yourself k w ft_codec m ctx)
    on_fleet k (k.pool.dispatch_event id (new_khronos_value name (some user_id) value))

  abbrev tell : TenantId → Option TenantState → Call (Unit {0})
  tell id none = pure tt
  tell id (some ts) = do reload ← on_fleet k (k.pool.update_tenant_state id ts); pure tt

  unfoldable pub admin_state_call : TenantId → List (StateOp V) → Call (MBotSyscallRet V C)
  unfolding do_op
  admin_state_call id ops = do
    res ← on_db k (λ db.
        let (db', r) = do_op w id ops admin_flags rq db in
        (db', map_err (λ e. generic (error_text e)) r))
    tell id res.new_tenant_state
    pure (state_ret res.results res.new_tenant_state)

  unfoldable pub admin_flags_call : TenantId → ModFlags → Call (MBotSyscallRet V C)
  unfolding set_mod_flags
  admin_flags_call id flags = do
    ts ← on_db k (set_mod_flags w id flags rq)
    reload ← on_fleet k (k.pool.update_tenant_state id ts)
    pure ack

  -- `if !ctx.is_secure() { return Err(ContextInsecure) }`, before each call of administration
  abbrev secured : {A : Type 0} → Call A → Call A
  secured body = ensure (is_secure ctx) context_insecure >> body

  abbrev answers : {A B : Type 0} → (A → B) → Call A → Call B
  answers f body h = let (h', r) = body h in (h', map_ok f r)

  -- `MBotSyscall::exec`
  unfoldable pub exec : MBotSyscall V → Call (MBotSyscallRet V C)
  unfolding dispatch feed_ticket_call get_blob_call get_bot_status_call relaxed_dispatch
      admin_state_call admin_flags_call fetch_tenant_state is_secure to_status
  exec get_bot_commands = pure (command_list m.commands)
  exec get_bot_config = pure (bot_config m.support_server_invite m.client_id)
  exec get_bot_status = get_bot_status_call k w ft_codec m ctx
  exec (dispatch_event id name value) =
      answers khronos (dispatch k w ft_codec m ctx true id name value)
  exec (dispatch_c_event id name value) =
      answers c_khronos (dispatch k w ft_codec m ctx false id name value)
  exec (get_blob_data payload signature) = get_blob_call k w ft_codec m ctx payload signature
  exec (feed_ticket id topics) = feed_ticket_call k w ft_codec m ctx id topics
  exec (admin_relaxed_dispatch_event id name value allow_names allow_self mock_id) =
      secured (answers khronos (relaxed_dispatch id name value allow_names allow_self mock_id))
  exec admin_get_uncached_bot_status = secured (
      lift (
        map_ok (λ raw. bot_status (to_status m.now_secs m.start_time raw))
          (generic_err m.stratum.get_status)))
  exec (admin_drop_tenant id) = secured (answers (λ u. ack) (on_fleet k (k.pool.drop_tenant id)))
  exec (admin_set_tenant_state_mod_flags id flags) = secured (admin_flags_call id flags)
  exec (admin_state id ops) = secured (admin_state_call id ops)
  exec (admin_fetch_tenant_state id) =
      secured (answers tenant_state_ret (on_db k (fetch_tenant_state w id rq)))
