-- ===== src/Master/Discord.antt =====
-- src/master/syscall/discord.rs: what a user of the website sees of Discord.
pub mod Exec
pub mod Laws
pub mod Examples
pub mod Keeps
use template_worker.Prelude.{
  ℕ, Bool, true, false, not, String, Option, none, some, Result, ok, err, List, [], ◌∷◌, map,
  map_ok, or_else, str_beq, is_some, if◌then◌else◌, ◌≡◌,
}
use template_worker.Prelude.Int.{ℤ, negsuc}
use template_worker.Prelude.Actions.{Action, pure, throw, gets, lift, modify, ensure, ◌>>=◌, ◌>>◌}
use template_worker.Prelude.Rows.{first, update}
use template_worker.Worker.Tenant.{Snowflakes}
use template_worker.Geese.Ratelimit.{Ratelimiter}
use template_worker.Master.Cache.{Cache, try_get_with}
use template_worker.Master.Context.{
  MSyscallContext, MSyscallError, generic, unauthorized, entity_not_found, into_user_id, limit,
  sub_limit,
}
use template_worker.Master.Handler.{Kinds, Handler, Stratum, generic_err, on_limits, has_bot}
use template_worker.Master.Sessions.{UserRow, WebDb, Surroundings, fetch, execute}
use template_worker.Master.Sessions.Tokens.{
  OauthTokenResponse, Response, generically, get_user_access_token,
}

abbrev pub search_guild_members_limit : ℕ
search_guild_members_limit = 20

pub data MDiscordSyscall : Type 0 where
  get_user_guilds : Bool → MDiscordSyscall
  get_guild_info : ℕ → MDiscordSyscall
  search_guild_members : ℕ → String → MDiscordSyscall

pub record DashboardGuild : Type 0 where
  pub id : ℕ
  pub name : String
  pub icon : Option String
  pub permissions : String
  pub owner : Bool

pub record ApiPartialGuildChannel : Type 0 where
  pub id : ℕ
  pub name : String
  pub position : ℤ
  pub parent_id : Option ℕ
  pub kind : ℕ

pub record GuildChannelWithPermissions : Type 0 where
  pub user : ℕ
  pub bot : ℕ
  pub channel : ApiPartialGuildChannel

pub record ApiPartialRole : Type 0 where
  pub id : ℕ
  pub name : String
  pub position : ℤ
  pub permissions : ℕ

pub record BaseGuildUserInfo : Type 0 where
  pub owner_id : String
  pub name : String
  pub icon : Option String
  pub roles : List ApiPartialRole
  pub user_roles : List ℕ
  pub bot_roles : List ℕ
  pub channels : List GuildChannelWithPermissions

-- The types of the crate dapi, and how they are read from JSON
pub record Dapi (Json : Type 0) : Type 1 where
  pub PartialGuild : Type 0
  pub Member : Type 0
  pub Channel : Type 0
  pub PartialMember : Type 0
  pub guild_of : Json → Result String PartialGuild
  pub member_of : Json → Result String Member
  pub channels_of : Json → Result String (List Channel)
  pub members_of : Json → Result String (List PartialMember)
  pub user_permissions_in : PartialGuild → Channel → Member → ℕ
  pub guild_name : PartialGuild → String
  pub icon_url : PartialGuild → Option String
  pub owner_id : PartialGuild → String
  pub roles : PartialGuild → List ApiPartialRole
  pub member_roles : Member → List ℕ
  pub channel_id : Channel → ℕ
  pub channel_name : Channel → Option String
  pub channel_position : Channel → Option ℤ
  pub channel_parent : Channel → Option ℕ
  pub channel_kind : Channel → ℕ

-- What a call asks of Stratum and Discord, with the bot's own id. `user_guilds` is asked with the
-- access token of the user.
pub record Remote (Json : Type 0) : Type 0 where
  pub bot_id : ℕ
  pub guild : ℕ → Result String (Option Json)
  pub guild_member : ℕ → ℕ → Result String (Option Json)
  pub guild_channels : ℕ → Result String (Option Json)
  pub search_members : ℕ → String → ℕ → Result String Json
  pub user_guilds : String → Result String (Option (List DashboardGuild))
  pub refresh_token : String → Response OauthTokenResponse
  pub guilds_from_value : String → Result String (List DashboardGuild)
  pub guilds_to_value : List DashboardGuild → Result String String

module _ {Json : Type 0} (a : Dapi Json) where
  pub data MDiscordSyscallRet : Type 0 where
    -- `DashboardGuildData`
    user_guilds_ret : List DashboardGuild → List Bool → MDiscordSyscallRet
    guild_info : BaseGuildUserInfo → MDiscordSyscallRet
    guild_members : List a.PartialMember → MDiscordSyscallRet

  abbrev unwrap_or : {A : Type 0} → Option A → A → A
  unwrap_or none d = d
  unwrap_or (some x) d = x

  unfoldable pub with_permissions :
      a.PartialGuild → a.Member → a.Member → a.Channel → GuildChannelWithPermissions
  with_permissions g member bot c = record {
    user = a.user_permissions_in g c member;
    bot = a.user_permissions_in g c bot;
    channel = record {
      id = a.channel_id c;
      name = unwrap_or (a.channel_name c) "";
      position = unwrap_or (a.channel_position c) (negsuc 0);
      parent_id = a.channel_parent c;
      kind = a.channel_kind c;
    };
  }

  unfoldable pub info_of : a.PartialGuild → a.Member → a.Member → List a.Channel → BaseGuildUserInfo
  unfolding with_permissions
  info_of g member bot channels = record {
    owner_id = a.owner_id g;
    name = a.guild_name g;
    icon = a.icon_url g;
    roles = a.roles g;
    user_roles = a.member_roles member;
    bot_roles = a.member_roles bot;
    channels = map (with_permissions g member bot) channels;
  }
