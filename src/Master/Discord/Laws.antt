-- ===== src/Master/Discord/Laws.antt =====
-- What the answers of src/master/syscall/discord.rs guarantee.
use template_worker.Prelude.{
  ℕ, ◌≡◌, refl, ap, ◌∙◌, Bool, String, Option, some, ok, List, [], ◌∷◌, map, arith, inl, inr,
  Option-cases, Result-cases,
}
use template_worker.Prelude.Rows.{length}
use template_worker.Prelude.Actions.{Action, bind-eq-ok, lift, pure, ◌>>=◌}
use template_worker.Worker.Tenant.{Snowflakes}
use template_worker.Master.Cache.{Cache}
use template_worker.Master.Context.{MSyscallContext, MSyscallError, into_user_id, limit}
use template_worker.Master.Handler.{Kinds, Handler, Stratum, has_bot_single, has_bot, on_limits}
use template_worker.Master.Sessions.{Surroundings}
use template_worker.Master.Discord.{
  get_user_guilds, search_guild_members, DashboardGuild, Dapi, Remote, MDiscordSyscallRet,
  user_guilds_ret, guild_members, search_guild_members_limit,
}
use template_worker.Master.Discord.Exec.{
  DiscordState, on_handler, guild_member, cached_guilds, or_refresh, get_user_guilds_call,
  search_guild_members_call, exec,
}

length-map : {A B : Type 0} (f : A → B) (xs : List A) → length (map f xs) ≡ length xs
length-map f [] = refl
length-map f (x ∷ xs) = ground (arith, length-map f xs)

module _ {V : Type 0} (J : Type 0) (k : Kinds V J) where
  -- One answer for each guild
  length-has_bot :
      (st : Stratum) (now : ℕ) (guilds : List ℕ) (h : Handler k) (bs : List Bool)
      → (has_bot k st now guilds h).1 ≡ ok bs
      → length bs ≡ length guilds
  unfolding has_bot
  length-has_bot st now [] h bs e = ground arith
  length-has_bot st now (g ∷ []) h bs e = elim (Result-cases (has_bot_single k st now g h).1) [
    | inl (b, q) ↦ ground arith
    | inr (b, q) ↦ absurd (ground arith)
  ]
  length-has_bot st now (g ∷ g' ∷ gs) h bs e = ground arith

module _ {V Json : Type 0} (J : Type 0) (k : Kinds V J) (a : Dapi Json)
    (members : Cache (ℕ × ℕ) (Option a.Member)) (sf : Snowflakes) (st : Stratum) (r : Remote Json)
    (x : Surroundings) (ctx : MSyscallContext) where
  ids : List DashboardGuild → List ℕ
  ids = map (λ (g : DashboardGuild). g.id)

  -- The last step of the call
  exist_step :
      List DashboardGuild → Action (DiscordState J k a members) MSyscallError (MDiscordSyscallRet a)
  exist_step guilds = do
    guilds_exist ← on_handler J k a members sf st r x ctx (has_bot k st x.now (ids guilds))
    pure (user_guilds_ret guilds guilds_exist)

  exist_step-length :
      (found : List DashboardGuild) (s : DiscordState J k a members) (guilds : List DashboardGuild)
      (bs : List Bool)
      → (exist_step found s).1 ≡ ok (user_guilds_ret guilds bs)
      → length bs ≡ length guilds
  unfolding exist_step ids
  exist_step-length found s guilds bs h =
      let (cs, q, e) =
        bind-eq-ok (on_handler J k a members sf st r x ctx (has_bot k st x.now (ids found)))
          (λ cs. pure (user_guilds_ret found cs)) s h in
      let same = length-has_bot J k st x.now (ids found) s.handler cs q in
      grind (arith, same, length-map (λ (g : DashboardGuild). g.id) found)

  -- The list of guilds and the list of whether the bot is in them have the same length, so that the
  -- website can read them side by side.
  pub get_user_guilds-length :
      (refresh : Bool) (s : DiscordState J k a members) (guilds : List DashboardGuild)
      (guilds_exist : List Bool)
      → (exec J k a members sf st r x ctx (get_user_guilds refresh) s).1
        ≡ ok (user_guilds_ret guilds guilds_exist)
      → length guilds_exist ≡ length guilds
  unfolding exec get_user_guilds_call exist_step ids
  get_user_guilds-length refresh s guilds guilds_exist h =
      let (u, q, e) =
        bind-eq-ok (lift (into_user_id ctx))
          (λ u. get_user_guilds_call J k a members sf st r x ctx u refresh) s h in
      let (t, q', e') =
        bind-eq-ok
          (on_handler J k a members sf st r x ctx
            (on_limits k (limit k.governor ctx "GetUserGuilds" x.now)))
          (λ t. cached_guilds J k a members sf st r x ctx refresh u >>= λ cache.
            or_refresh J k a members sf st r x ctx u cache >>= exist_step)
          s e in
      let (cache, q'', e'') =
        bind-eq-ok (cached_guilds J k a members sf st r x ctx refresh u)
          (λ cache. or_refresh J k a members sf st r x ctx u cache >>= exist_step) _ e' in
      let (found, p, last) =
        bind-eq-ok (or_refresh J k a members sf st r x ctx u cache) exist_step _ e'' in
      exist_step-length found _ guilds guilds_exist last

  -- Members of a guild are found only for a user who is a member of it, by the answer of Stratum or of
  -- the cache before it, and what is shown is what Discord answers to the search, for 20 members.
  pub search_guild_members-eq-ok :
      (g : ℕ) (name : String) (s : DiscordState J k a members) (found : List a.PartialMember)
      → (exec J k a members sf st r x ctx (search_guild_members g name) s).1
        ≡ ok (guild_members found)
      → (u : ℕ) × (into_user_id ctx ≡ ok u)
        × ((m : a.Member) × ((guild_member J k a members sf st r x ctx g u s).1 ≡ ok (some m)))
        × ((sgm : Json) × (r.search_members g name search_guild_members_limit ≡ ok sgm)
            × (a.members_of sgm ≡ ok found))
  unfolding exec search_guild_members_call
  search_guild_members-eq-ok g name s found h = elim (Result-cases (into_user_id ctx)) [
    | inr (e, q) ↦ absurd (ground arith)
    | inl (u, q) ↦
        elim (Result-cases
          (on_limits k (limit k.governor ctx "SearchGuildMembers" x.now) s.handler).1) [
            | inr (e, l) ↦ absurd (ground arith)
            | inl (t, l) ↦ elim (Result-cases (guild_member J k a members sf st r x ctx g u s).1) [
              | inr (e, c) ↦ absurd (ground arith)
              | inl (me, c) ↦
                  elim (Result-cases (r.search_members g name search_guild_members_limit)) [
                    | inr (e, d) ↦ absurd (ground arith)
                    | inl (sgm, d) ↦ elim (Option-cases me) [
                      | inl n ↦ absurd (ground arith)
                      | inr (m, n) ↦ (u, q, (m, c ∙ ap (λ i. ok i) n), (sgm, d, ground arith))
                    ]
                  ]
            ]
          ]
  ]
