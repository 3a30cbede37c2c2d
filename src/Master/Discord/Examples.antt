-- ===== src/Master/Discord/Examples.antt =====
-- The calls of src/master/syscall/discord.rs with a Discord of one guild. JSON is a number.
use template_worker.Prelude.{ℕ, ◌≡◌, refl, false, true, none, some, ok, [], ◌∷◌, pair_eq, nat_eq}
use template_worker.Prelude.Rows.{length, first}
use template_worker.Prelude.Dict.{get}
use template_worker.Worker.Tenant.Examples.{unary}
use template_worker.Geese.Ratelimit.{check, sub_check, check_all}
use template_worker.Master.Context.{api_token, into_user_id, limit}
use template_worker.Master.Handler.{has_bot, has_bot_single}
use template_worker.Master.Sessions.Tokens.{not_sent}
use template_worker.Master.Examples.{
  timed, find, small_kinds, small_handler, small_stratum, small_web, calm,
}
use template_worker.Master.Discord.{
  Dapi, Remote, DashboardGuild, user_guilds_ret, guild_members, get_user_guilds,
  search_guild_members, search_guild_members_limit,
}
use template_worker.Master.Discord.Exec.{
  DiscordState, exec, guild_member, get_user_guilds_call, cached_guilds, search_guild_members_call,
}
use template_worker.Master.Discord.Laws.{get_user_guilds-length, search_guild_members-eq-ok}

abbrev pub small_dapi : Dapi ℕ
small_dapi = record {
  PartialGuild = ℕ;
  Member = ℕ;
  Channel = ℕ;
  PartialMember = ℕ;
  guild_of = λ j. ok j;
  member_of = λ j. ok j;
  channels_of = λ j. ok (j ∷ []);
  members_of = λ j. ok (j ∷ []);
  user_permissions_in = λ g c m. 0;
  guild_name = λ g. "";
  icon_url = λ g. none;
  owner_id = λ g. "";
  roles = λ g. [];
  member_roles = λ m. [];
  channel_id = λ c. c;
  channel_name = λ c. none;
  channel_position = λ c. none;
  channel_parent = λ c. none;
  channel_kind = λ c. 0;
}

abbrev home : DashboardGuild
home = record { id = 3; name = "home"; icon = none; permissions = "0"; owner = true }

abbrev pub small_remote : Remote ℕ
small_remote = record {
  bot_id = 9;
  guild = λ g. ok (some g);
  guild_member = λ g u. ok (some u);
  guild_channels = λ g. ok (some g);
  search_members = λ g name n. ok 5;
  user_guilds = λ t. ok (some (home ∷ []));
  refresh_token = λ t. not_sent "down";
  guilds_from_value = λ t. ok (home ∷ []);
  guilds_to_value = λ gs. ok "";
}

abbrev small_state : DiscordState ℕ small_kinds small_dapi (timed 300)
small_state = record {
  handler = small_handler;
  guild_members_cache = [];
  web = record small_web {
    users = record { user_id = "11"; state = "normal"; guilds_cache = some "kept" } ∷ [];
  };
}

listed :
    (exec ℕ small_kinds small_dapi
      (timed 300)
      unary
      small_stratum
      small_remote
      (calm 10)
      (api_token 2)
      (get_user_guilds false)
      small_state).1
    ≡ ok (user_guilds_ret (home ∷ []) (true ∷ []))
unfolding exec into_user_id get_user_guilds_call cached_guilds limit check check_all sub_check get
    first has_bot has_bot_single find
listed = refl

get_user_guilds-length_example : length (true ∷ []) ≡ length (home ∷ [])
get_user_guilds-length_example =
    get_user_guilds-length ℕ small_kinds small_dapi (timed 300) unary small_stratum small_remote
      (calm 10) (api_token 2) false small_state (home ∷ []) (true ∷ []) listed

found :
    (exec ℕ small_kinds small_dapi
      (timed 300)
      unary
      small_stratum
      small_remote
      (calm 10)
      (api_token 2)
      (search_guild_members 3 "a")
      small_state).1
    ≡ ok (guild_members (5 ∷ []))
unfolding exec into_user_id search_guild_members_call limit check check_all sub_check get
    guild_member find
found = refl

search_guild_members-eq-ok_example :
    (u : ℕ) × (into_user_id (api_token 2) ≡ ok u)
    × ((m : ℕ) × ((guild_member ℕ small_kinds small_dapi
            (timed 300)
            unary
            small_stratum
            small_remote
            (calm 10)
            (api_token 2)
            3
            u
            small_state).1
          ≡ ok (some m)))
    × ((sgm : ℕ) × (small_remote.search_members 3 "a" search_guild_members_limit ≡ ok sgm)
        × (small_dapi.members_of sgm ≡ ok (5 ∷ [])))
search_guild_members-eq-ok_example =
    search_guild_members-eq-ok ℕ small_kinds small_dapi (timed 300) unary small_stratum small_remote
      (calm 10) (api_token 2) 3 "a" small_state (5 ∷ []) found
