-- ===== src/Master/Discord/Exec.antt =====
-- `MDiscordSyscall::exec` of src/master/syscall/discord.rs.
use template_worker.Prelude.{
  ℕ, Bool, true, false, String, Option, none, some, Result, ok, err, List, map, map_ok, or_else,
  str_beq, is_some,
}
use template_worker.Prelude.Actions.{Action, pure, lift, ensure, ◌>>=◌, ◌>>◌}
use template_worker.Prelude.Rows.{first, update}
use template_worker.Worker.Tenant.{Snowflakes}
use template_worker.Master.Cache.{Cache, try_get_with}
use template_worker.Master.Context.{
  MSyscallContext, MSyscallError, generic, unauthorized, entity_not_found, into_user_id, limit,
  sub_limit,
}
use template_worker.Master.Handler.{Kinds, Handler, Stratum, generic_err, on_limits, has_bot}
use template_worker.Master.Sessions.{WebDb, Surroundings, fetch, execute}
use template_worker.Master.Sessions.Tokens.{generically, get_user_access_token}
use template_worker.Master.Discord.{
  MDiscordSyscall, get_user_guilds, get_guild_info, search_guild_members,
  search_guild_members_limit, DashboardGuild, Dapi, Remote, MDiscordSyscallRet, user_guilds_ret,
  guild_info, guild_members, info_of,
}

abbrev pub no_member_info : String
no_member_info =
    "Failed to find current member info. If you recently joined the server, you may need to wait up to 10-15 minutes."

abbrev pub not_a_member : String
not_a_member =
    "You are potentially not a member of this server! If you recently joined the server, you may need to wait up to 5 minutes."

module _ {V Json : Type 0} (J : Type 0) (k : Kinds V J) (a : Dapi Json)
    (members : Cache (ℕ × ℕ) (Option a.Member)) where
  -- The parts of `MSyscallHandler` that these calls use
  pub record DiscordState : Type 0 where
    pub handler : Handler k
    pub guild_members_cache : members.Store
    pub web : WebDb

module _ {V Json : Type 0} (J : Type 0) (k : Kinds V J) (a : Dapi Json)
    (members : Cache (ℕ × ℕ) (Option a.Member)) (sf : Snowflakes) (st : Stratum) (r : Remote Json)
    (x : Surroundings) (ctx : MSyscallContext) where
  abbrev Call : Type 0 → Type 0
  Call A = Action (DiscordState J k a members) MSyscallError A

  abbrev pub on_handler : {A : Type 0} → Action (Handler k) MSyscallError A → Call A
  on_handler m s = let (h, out) = m s.handler in (record s { handler = h }, out)

  abbrev on_web : {A : Type 0} → Action WebDb MSyscallError A → Call A
  on_web m s = let (w, out) = m s.web in (record s { web = w }, out)

  abbrev optional_member : Option Json → Result String (Option a.Member)
  optional_member none = ok none
  optional_member (some v) = map_ok some (a.member_of v)

  abbrev pub fetch_member : ℕ → ℕ → Result String (Option a.Member)
  fetch_member g u = elim (r.guild_member g u) [ err e ↦ err e | ok v ↦ optional_member v ]

  -- `MSyscallHandler::guild_member`
  unfoldable pub guild_member : ℕ → ℕ → Call (Option a.Member)
  guild_member g u s =
      let (c, out) = try_get_with members (g, u) x.now (fetch_member g u) s.guild_members_cache in
      (record s { guild_members_cache = c }, generic_err out)

  abbrev parse_cache : Option String → Result MSyscallError (Option (List DashboardGuild))
  parse_cache none = ok none
  parse_cache (some t) = map_ok some (generic_err (r.guilds_from_value t))

  -- The guilds that are kept in the table, which are read unless a refresh is asked for
  unfoldable pub cached_guilds : Bool → ℕ → Call (Option (List DashboardGuild))
  unfolding first
  cached_guilds true user_id = pure none
  cached_guilds false user_id = on_web (do
    row ←
        generically
          (fetch (x.faults 3) (λ db. first (λ u. str_beq u.user_id (sf.show user_id)) db.users))
    user ← lift (
        or_else row
          (generic "no rows returned by a query that expected to return at least one row"))
    lift (parse_cache user.guilds_cache))

  abbrev keep_guilds : String → String → WebDb → WebDb
  keep_guilds user_id value db = record db {
    users =
        update (λ u. str_beq u.user_id user_id) (λ u. record u { guilds_cache = some value })
          db.users;
  }

  -- The guilds from Discord, which are kept in the table
  unfoldable pub fresh_guilds : ℕ → Call (List DashboardGuild)
  unfolding get_user_access_token update
  fresh_guilds user_id = on_web (do
    token ← get_user_access_token x r.refresh_token (sf.show user_id)
    found ← lift (generic_err (r.user_guilds token))
    guilds ← lift (or_else found (generic "No user guilds found"))
    value ← lift (generic_err (r.guilds_to_value guilds))
    generically (execute (x.faults 4) (keep_guilds (sf.show user_id) value))
    pure guilds)

  -- The extra limit for a refresh, and the refresh, where there is nothing kept
  abbrev pub or_refresh : ℕ → Option (List DashboardGuild) → Call (List DashboardGuild)
  or_refresh user_id (some gc) = pure gc
  or_refresh user_id none =
      on_handler (on_limits k (sub_limit k.governor ctx "GetUserGuilds__Refresh" x.now))
      >> fresh_guilds user_id

  unfoldable pub get_user_guilds_call : ℕ → Bool → Call (MDiscordSyscallRet a)
  unfolding limit sub_limit has_bot cached_guilds fresh_guilds
  get_user_guilds_call user_id refresh = do
    on_handler (on_limits k (limit k.governor ctx "GetUserGuilds" x.now))
    cache ← cached_guilds refresh user_id
    guilds ← or_refresh user_id cache
    guilds_exist ← on_handler (has_bot k st x.now (map (λ (g : DashboardGuild). g.id) guilds))
    pure (user_guilds_ret guilds guilds_exist)

  unfoldable pub get_guild_info_call : ℕ → ℕ → Call (MDiscordSyscallRet a)
  unfolding limit guild_member info_of
  get_guild_info_call user_id g = do
    on_handler (on_limits k (limit k.governor ctx "GetGuildInfo" x.now))
    found ← lift (generic_err (r.guild g))
    guild_json ← lift (or_else found (entity_not_found "Failed to fetch guild data from stratum"))
    guild ← lift (generic_err (a.guild_of guild_json))
    me ← guild_member g user_id
    member ← lift (or_else me (entity_not_found no_member_info))
    it ← guild_member g r.bot_id
    bot_user ← lift (or_else it (entity_not_found "Failed to find bot user info"))
    some_channels ← lift (generic_err (r.guild_channels g))
    channels_json ←
        lift (or_else some_channels (entity_not_found "Failed to find guild channel info"))
    channels ← lift (generic_err (a.channels_of channels_json))
    pure (guild_info (info_of a guild member bot_user channels))

  unfoldable pub search_guild_members_call : ℕ → ℕ → String → Call (MDiscordSyscallRet a)
  unfolding limit guild_member
  search_guild_members_call user_id g name = do
    on_handler (on_limits k (limit k.governor ctx "SearchGuildMembers" x.now))
    me ← guild_member g user_id
    ensure (is_some me) (unauthorized not_a_member)
    sgm ← lift (generic_err (r.search_members g name search_guild_members_limit))
    mem_data ← lift (generic_err (a.members_of sgm))
    pure (guild_members mem_data)

  -- `MDiscordSyscall::exec`
  unfoldable pub exec : MDiscordSyscall → Call (MDiscordSyscallRet a)
  unfolding into_user_id get_user_guilds_call get_guild_info_call search_guild_members_call
  exec (get_user_guilds refresh) = do
    user_id ← lift (into_user_id ctx)
    get_user_guilds_call user_id refresh
  exec (get_guild_info g) = do user_id ← lift (into_user_id ctx); get_guild_info_call user_id g
  exec (search_guild_members g name) = do
    user_id ← lift (into_user_id ctx)
    search_guild_members_call user_id g name
