-- ===== src/Master/Discord/Keeps.antt =====
-- What the calls of src/master/syscall/discord.rs leave alone: the tenants' tables and the workers.
use template_worker.Prelude.{
  ℕ, ◌≡◌, refl, Bool, true, false, String, Option, none, some, Result, List, [], ◌∷◌, map, arith,
  inl, inr, is_some, Result-cases, or_else,
}
use template_worker.Prelude.Actions.{ensure, lift, pure}
use template_worker.Prelude.Clean.{Keeps, bind-Keeps}
use template_worker.Worker.Tenant.{Snowflakes}
use template_worker.Geese.State.Tables.{Db}
use template_worker.Master.Cache.{Cache}
use template_worker.Master.Context.{
  MSyscallContext, MSyscallError, into_user_id, limit, sub_limit, entity_not_found, unauthorized,
}
use template_worker.Master.Handler.{
  Kinds, Handler, Stratum, has_bot, on_limits, generic_err, has_bot_single,
}
use template_worker.Master.Sessions.{Surroundings}
use template_worker.Master.Discord.{
  MDiscordSyscall, get_user_guilds, get_guild_info, search_guild_members, DashboardGuild, Dapi,
  Remote, search_guild_members_limit,
}
use template_worker.Master.Discord.Exec.{
  DiscordState, on_handler, guild_member, cached_guilds, fresh_guilds, or_refresh,
  get_user_guilds_call, get_guild_info_call, search_guild_members_call, exec, not_a_member,
  no_member_info,
}

-- The workers and the tenants' tables
abbrev pub both : {V J : Type 0} (k : Kinds V J) → Handler k → k.pool.Fleet × Db J
both k h = (h.fleet, h.db)

module _ {V Json : Type 0} (J : Type 0) (k : Kinds V J) (a : Dapi Json)
    (members : Cache (ℕ × ℕ) (Option a.Member)) (sf : Snowflakes) (st : Stratum) (r : Remote Json)
    (x : Surroundings) (ctx : MSyscallContext) where
  abbrev pub shared : DiscordState J k a members → k.pool.Fleet × Db J
  shared s = both k s.handler

  has_bot_keeps :
      (guilds : List ℕ) (h : Handler k) → both k (has_bot k st x.now guilds h).0 ≡ both k h
  unfolding has_bot has_bot_single
  has_bot_keeps [] h = refl
  has_bot_keeps (g ∷ []) h = elim (Result-cases (has_bot_single k st x.now g h).1) [
    | inl (b, q) ↦ ground arith
    | inr (e, q) ↦ ground arith
  ]
  has_bot_keeps (g ∷ g' ∷ gs) h = refl

  lift-Keeps : {A : Type 0} (e : Result MSyscallError A) → Keeps shared (lift e)
  unfolding Keeps
  lift-Keeps e s = refl

  pure-Keeps : {A : Type 0} (v : A) → Keeps {E = MSyscallError} shared (pure v)
  unfolding Keeps
  pure-Keeps v s = refl

  ensure-Keeps : (b : Bool) (e : MSyscallError) → Keeps shared (ensure b e)
  unfolding Keeps
  ensure-Keeps b e s = refl

  bots-Keeps :
      (guilds : List ℕ)
      → Keeps shared (on_handler J k a members sf st r x ctx (has_bot k st x.now guilds))
  unfolding Keeps
  bots-Keeps guilds s = has_bot_keeps guilds s.handler

  sub_limit-Keeps :
      (op : String)
      → Keeps shared
          (on_handler J k a members sf st r x ctx (on_limits k (sub_limit k.governor ctx op x.now)))
  unfolding Keeps
  sub_limit-Keeps op s = refl

  fresh-Keeps : (u : ℕ) → Keeps shared (fresh_guilds J k a members sf st r x ctx u)
  unfolding Keeps fresh_guilds
  fresh-Keeps u s = refl

  or_refresh-Keeps :
      (u : ℕ) (cache : Option (List DashboardGuild))
      → Keeps shared (or_refresh J k a members sf st r x ctx u cache)
  or_refresh-Keeps u (some gc) = pure-Keeps gc
  or_refresh-Keeps u none =
      bind-Keeps shared
        (on_handler J k a members sf st r x ctx
          (on_limits k (sub_limit k.governor ctx "GetUserGuilds__Refresh" x.now)))
        (λ t. fresh_guilds J k a members sf st r x ctx u) (sub_limit-Keeps "GetUserGuilds__Refresh")
        (λ t. fresh-Keeps u)

  cached_guilds-Keeps :
      (refresh : Bool) (u : ℕ) → Keeps shared (cached_guilds J k a members sf st r x ctx refresh u)
  unfolding cached_guilds Keeps
  cached_guilds-Keeps true u s = refl
  cached_guilds-Keeps false u s = refl

  limits-Keeps :
      (op : String)
      → Keeps shared
          (on_handler J k a members sf st r x ctx (on_limits k (limit k.governor ctx op x.now)))
  unfolding Keeps
  limits-Keeps op s = refl

  get_user_guilds_call-Keeps :
      (u : ℕ) (refresh : Bool)
      → Keeps shared (get_user_guilds_call J k a members sf st r x ctx u refresh)
  unfolding get_user_guilds_call
  get_user_guilds_call-Keeps u refresh =
      bind-Keeps shared
        (on_handler J k a members sf st r x ctx
          (on_limits k (limit k.governor ctx "GetUserGuilds" x.now)))
        _ (limits-Keeps "GetUserGuilds")
        (λ t.
          bind-Keeps shared (cached_guilds J k a members sf st r x ctx refresh u) _
            (cached_guilds-Keeps refresh u)
            (λ cache.
              bind-Keeps shared (or_refresh J k a members sf st r x ctx u cache) _
                (or_refresh-Keeps u cache)
                (λ guilds.
                  bind-Keeps shared
                    (on_handler J k a members sf st r x ctx
                      (has_bot k st x.now (map (λ (g : DashboardGuild). g.id) guilds)))
                    _ (bots-Keeps (map (λ (g : DashboardGuild). g.id) guilds))
                    (λ bs. pure-Keeps _))))

  member-Keeps : (g u : ℕ) → Keeps shared (guild_member J k a members sf st r x ctx g u)
  unfolding guild_member Keeps
  member-Keeps g u s = refl

  get_guild_info_call-Keeps :
      (u g : ℕ) → Keeps shared (get_guild_info_call J k a members sf st r x ctx u g)
  unfolding get_guild_info_call
  get_guild_info_call-Keeps u g =
      bind-Keeps shared
        (on_handler J k a members sf st r x ctx
          (on_limits k (limit k.governor ctx "GetGuildInfo" x.now)))
        _ (limits-Keeps "GetGuildInfo")
        (λ t. bind-Keeps shared (lift (generic_err (r.guild g))) _ (lift-Keeps _) (λ found.
          bind-Keeps shared
            (lift (or_else found (entity_not_found "Failed to fetch guild data from stratum"))) _
            (lift-Keeps _)
            (λ guild_json.
              bind-Keeps shared (lift (generic_err (a.guild_of guild_json))) _ (lift-Keeps _)
                (λ guild.
                  bind-Keeps shared (guild_member J k a members sf st r x ctx g u) _
                    (member-Keeps g u)
                    (λ me.
                      bind-Keeps shared (lift (or_else me (entity_not_found no_member_info))) _
                        (lift-Keeps _)
                        (λ member.
                          bind-Keeps shared (guild_member J k a members sf st r x ctx g r.bot_id) _
                            (member-Keeps g r.bot_id)
                            (λ it.
                              bind-Keeps shared
                                (lift
                                  (or_else it (entity_not_found "Failed to find bot user info")))
                                _ (lift-Keeps _)
                                (λ bot_user.
                                  bind-Keeps shared (lift (generic_err (r.guild_channels g))) _
                                    (lift-Keeps _)
                                    (λ found_channels.
                                      bind-Keeps shared
                                        (lift (
                                          or_else found_channels
                                            (entity_not_found "Failed to find guild channel info")))
                                        _ (lift-Keeps _)
                                        (λ channels_json.
                                          bind-Keeps shared
                                            (lift (generic_err (a.channels_of channels_json))) _
                                            (lift-Keeps _) (λ channels. pure-Keeps _)))))))))))

  search_guild_members_call-Keeps :
      (u g : ℕ) (name : String)
      → Keeps shared (search_guild_members_call J k a members sf st r x ctx u g name)
  unfolding search_guild_members_call
  search_guild_members_call-Keeps u g name =
      bind-Keeps shared
        (on_handler J k a members sf st r x ctx
          (on_limits k (limit k.governor ctx "SearchGuildMembers" x.now)))
        _ (limits-Keeps "SearchGuildMembers")
        (λ t.
          bind-Keeps shared (guild_member J k a members sf st r x ctx g u) _ (member-Keeps g u)
            (λ me.
              bind-Keeps shared (ensure (is_some me) (unauthorized not_a_member)) _
                (ensure-Keeps _ _)
                (λ t'.
                  bind-Keeps shared
                    (lift (generic_err (r.search_members g name search_guild_members_limit))) _
                    (lift-Keeps _)
                    (λ sgm.
                      bind-Keeps shared (lift (generic_err (a.members_of sgm))) _ (lift-Keeps _)
                        (λ found. pure-Keeps _)))))

  -- No call of this group changes the tenants' tables or tells a worker anything.
  pub exec-Keeps : (call : MDiscordSyscall) → Keeps shared (exec J k a members sf st r x ctx call)
  unfolding exec
  exec-Keeps (get_user_guilds refresh) =
      bind-Keeps shared (lift (into_user_id ctx)) _ (lift-Keeps _)
        (λ u. get_user_guilds_call-Keeps u refresh)
  exec-Keeps (get_guild_info g) =
      bind-Keeps shared (lift (into_user_id ctx)) _ (lift-Keeps _)
        (λ u. get_guild_info_call-Keeps u g)
  exec-Keeps (search_guild_members g name) =
      bind-Keeps shared (lift (into_user_id ctx)) _ (lift-Keeps _)
        (λ u. search_guild_members_call-Keeps u g name)
