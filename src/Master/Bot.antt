-- ===== src/Master/Bot.antt =====
-- src/master/syscall/bot.rs: the calls on the bot. Events go to the worker of a tenant; the calls of
-- administration are for secure contexts.
pub mod Admin
pub mod Laws
pub mod Modflags
pub mod Examples
use text.Mathlib.Text.{starts_with}
use template_worker.Prelude.{
  ℕ, ◌-◌, Bool, true, false, ◌&&◌, ◌||◌, not, String, Option, none, some, Result, ok, err, List, [],
  ◌∷◌, map, map_err, map_ok, or_else, nat_beq, if◌then◌else◌, nat_eq,
}
use template_worker.Prelude.Dict.{insert}
use template_worker.Prelude.Actions.{Action, pure, throw, gets, lift, ensure, ◌>>=◌, ◌>>◌}
use template_worker.Worker.Tenant.{TenantId, guild, user}
use template_worker.Worker.SimpleEvent.{SimpleEvent, new_khronos_value, new_feed_ticket_request}
use template_worker.Geese.Signing.{Codec}
use template_worker.Geese.Urlsign.{verify_url, message}
use template_worker.Geese.Feedticket.{Payload, create_feedticket}
use template_worker.Geese.TenantState.{ModFlags, TenantState}
use template_worker.Geese.State.Ops.{StateOp}
use template_worker.Geese.State.Tables.{World, StateExecResult, Error}
use template_worker.Geese.State.Blobs.{fetch_blob}
use template_worker.Mesophyll.Server.{error_text}
use template_worker.Master.Cache.{Cache, try_get_with}
use template_worker.Master.Context.{
  MSyscallContext, MSyscallError, generic, invalid_event, context_insecure, bot_not_on_guild,
  unauthorized, entity_not_found, is_secure, is_anon_getter, into_user_id, limit,
}
use template_worker.Master.Handler.{
  Kinds, Handler, Stratum, RawStatus, BotStatus, ShardConn, on_fleet, on_limits, on_db, generic_err,
  has_bot_single, has_bot,
}

pub data MBotSyscall (V : Type 0) : Type 0 where
  get_bot_commands get_bot_config get_bot_status : MBotSyscall V
  -- the tenant, the name of the event, its data
  dispatch_event dispatch_c_event : TenantId → String → V → MBotSyscall V
  feed_ticket : TenantId → List String → MBotSyscall V
  -- the payload and the signature
  get_blob_data : String → String → MBotSyscall V
  -- .. `allow_non_web_event_names`, `allow_self_event`, `mock_id`
  admin_relaxed_dispatch_event : TenantId → String → V → Bool → Bool → Option String → MBotSyscall V
  admin_get_uncached_bot_status : MBotSyscall V
  admin_drop_tenant : TenantId → MBotSyscall V
  admin_set_tenant_state_mod_flags : TenantId → ModFlags → MBotSyscall V
  admin_state : TenantId → List (StateOp V) → MBotSyscall V
  admin_fetch_tenant_state : TenantId → MBotSyscall V

-- `C` is the type of a command of the bot.
pub data MBotSyscallRet (V C : Type 0) : Type 0 where
  command_list : List C → MBotSyscallRet V C
  bot_config : String → ℕ → MBotSyscallRet V C
  bot_status : BotStatus → MBotSyscallRet V C
  khronos c_khronos : V → MBotSyscallRet V C
  state_ret : List (StateExecResult V) → Option TenantState → MBotSyscallRet V C
  tenant_state_ret : TenantState → MBotSyscallRet V C
  blob_data : List ℕ → String → MBotSyscallRet V C
  feed_ticket_ret : String → String → MBotSyscallRet V C
  ack : MBotSyscallRet V C

-- What a call meets: the time, the answers of Stratum, the error of the query for a blob, and the
-- configuration. `start_time` and `now_secs` are in seconds.
pub record Meets (C : Type 0) : Type 0 where
  pub now : ℕ
  pub now_secs : ℕ
  pub start_time : ℕ
  pub stratum : Stratum
  pub blob_fault : Option String
  pub commands : List C
  pub support_server_invite : String
  pub client_id : ℕ

-- `collect` into the map of shards
abbrev pub shard_map : List (ℕ × String × ℕ) → List (ℕ × ShardConn) → List (ℕ × ShardConn)
shard_map [] conns = conns
shard_map ((id, state, latency) ∷ shards) conns =
    shard_map shards (insert id (record { status = state; latency = latency }) conns)

-- `max(0)` of the difference is subtraction on ℕ.
unfoldable pub to_status : ℕ → ℕ → RawStatus → BotStatus
unfolding insert
to_status now start raw = record {
  shard_conns = shard_map raw.shards [];
  total_guilds = raw.guild_count;
  total_users = raw.user_count;
  uptime = now - start;
}

abbrev pub starts_with_web : String → Bool
starts_with_web name = starts_with name "Web"

abbrev pub at_least_one : List Bool → Bool
at_least_one (b ∷ bs) = b
at_least_one [] = false

module _ {V J C : Type 0} (k : Kinds V J) (w : World V J) (ft_codec : Codec Payload) (m : Meets C)
    (ctx : MSyscallContext) where
  abbrev Call : Type 0 → Type 0
  Call A = Action (Handler k) MSyscallError A

  -- The guild is one with the bot, by the look-up of one guild, and a user is oneself.
  unfoldable pub check_target : TenantId → ℕ → Bool → Bool → String → Call (Unit {0})
  unfolding has_bot_single has_bot
  check_target (guild g) user_id true allow_other text = do
    hb ← has_bot_single k m.stratum m.now g
    ensure hb bot_not_on_guild
  check_target (guild g) user_id false allow_other text = do
    hb ← has_bot k m.stratum m.now (g ∷ [])
    ensure (at_least_one hb) bot_not_on_guild
  check_target (user u) user_id single allow_other text =
      ensure (allow_other || nat_beq user_id u) (invalid_event text)

  abbrev pub not_yourself : String
  not_yourself = "Cannot send events to users who are not yourself"

  -- `DispatchEvent` (`single`) and `DispatchCEvent`
  unfoldable pub dispatch : Bool → TenantId → String → V → Call V
  unfolding check_target into_user_id
  dispatch single id name value = do
    ensure (starts_with_web name) (invalid_event "Event name must start with Web")
    user_id ← lift (into_user_id ctx)
    check_target id user_id single false not_yourself
    on_fleet k (k.pool.dispatch_event id (new_khronos_value name (some user_id) value))

  unfoldable pub feed_ticket_call : TenantId → List String → Call (MBotSyscallRet V C)
  unfolding check_target into_user_id limit
  feed_ticket_call id topics = do
    user_id ← lift (into_user_id ctx)
    on_limits k (limit k.governor ctx "FeedTicket" m.now)
    check_target id user_id false false "Cannot create tickets to users who are not yourself"
    answer ← on_fleet k (k.pool.dispatch_event id (new_feed_ticket_request (some user_id) topics))
    ticket ←
        lift (
          generic_err (create_feedticket w.sf w.crypto ft_codec w.cfg m.now_secs id user_id topics))
    pure (feed_ticket_ret ticket.0 ticket.1)

  unfoldable pub get_blob_call : String → String → Call (MBotSyscallRet V C)
  unfolding is_secure is_anon_getter fetch_blob
  get_blob_call payload signature = do
    ensure (is_anon_getter ctx || is_secure ctx) context_insecure
    verified ← lift (
        map_err (λ e. unauthorized (message e))
          (verify_url w.sf w.crypto w.url_codec w.cfg m.now_secs payload signature))
    found ←
        on_db k (λ db.
          (db, map_err (λ e. generic (error_text e)) (fetch_blob w m.blob_fault verified db)))
    blob ← lift (or_else found (entity_not_found "Blob not found"))
    pure (blob_data blob.0 blob.1)

  unfoldable pub get_bot_status_call : Call (MBotSyscallRet V C)
  unfolding to_status
  get_bot_status_call h =
      let stats = map_ok (to_status m.now_secs m.start_time) m.stratum.get_status in
      let (s, r) = try_get_with k.status_cache tt m.now stats h.statuses in
      (record h { statuses = s }, map_ok bot_status (generic_err r))
