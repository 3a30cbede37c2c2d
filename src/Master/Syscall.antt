-- ===== src/Master/Syscall.antt =====
-- `MSyscallHandler::handle_syscall` of src/master/syscall/mod.rs, over the four groups of calls.
pub mod Laws
use template_worker.Prelude.{ℕ, String, Option, List, map_err}
use template_worker.Prelude.Actions.{Action, pure, ◌>>=◌}
use template_worker.Worker.Tenant.{Snowflakes}
use template_worker.Geese.Signing.{Codec}
use template_worker.Geese.Feedticket.{Payload}
use template_worker.Geese.State.Tables.{World, Db}
use template_worker.Geese.State.Exec.{Request}
use template_worker.Master.Cache.{Cache}
use template_worker.Master.Context.{MSyscallContext, MSyscallError, Stop, returned}
use template_worker.Master.Handler.{Kinds, Handler}
use template_worker.Master.Sessions.{Uuids, WebDb, Surroundings}
use template_worker.Master.Bot.{MBotSyscall, MBotSyscallRet, Meets}
use template_worker.Master.Bot.Admin as BotCalls
use template_worker.Master.Auth.{MAuthSyscall, MAuthSyscallRet, Discord, AuthState}
use template_worker.Master.Auth as AuthCalls
use template_worker.Master.Gkv.{MGkvSyscall, MGkvSyscallRet}
use template_worker.Master.Gkv as GkvCalls
use template_worker.Master.Discord.{MDiscordSyscall, MDiscordSyscallRet, Dapi, Remote}
use template_worker.Master.Discord.Exec.{DiscordState}
use template_worker.Master.Discord.Exec as DiscordCalls

-- What the handler is made with
pub record Site (V J Json : Type 0) : Type 1 where
  pub kinds : Kinds V J
  pub world : World V J
  pub ticket_codec : Codec Payload
  pub dapi : Dapi Json
  pub members : Cache (ℕ × ℕ) (Option (dapi.Member))
  pub codes : Cache String (Unit {0})
  pub uuids : Uuids
  pub allowed_redirects : List String
  pub bad_id : String

-- What one call meets
pub record Moment (C Json : Type 0) : Type 0 where
  pub meets : Meets C
  pub request : Request
  pub surroundings : Surroundings
  pub discord : Discord
  pub remote : Remote Json

pub data MSyscallArgs (V : Type 0) : Type 0 where
  bot : MBotSyscall V → MSyscallArgs V
  discord : MDiscordSyscall → MSyscallArgs V
  auth : MAuthSyscall → MSyscallArgs V
  gkv : MGkvSyscall → MSyscallArgs V

module _ {V J Json : Type 0} (site : Site V J Json) where
  -- `MSyscallHandler`
  pub record Master : Type 0 where
    pub handler : Handler site.kinds
    pub guild_members_cache : site.members.Store
    pub oauth2_code_cache : site.codes.Store
    pub web : WebDb

  pub data MSyscallRet (C : Type 0) : Type 0 where
    bot_ret : MBotSyscallRet V C → MSyscallRet C
    discord_ret : MDiscordSyscallRet site.dapi → MSyscallRet C
    auth_ret : MAuthSyscallRet → MSyscallRet C
    gkv_ret : MGkvSyscallRet V → MSyscallRet C

  abbrev pub on_bot :
      {A : Type 0} → Action (Handler site.kinds) MSyscallError A → Action Master Stop A
  on_bot f s = let (h, r) = f s.handler in (record s { handler = h }, map_err returned r)

  abbrev pub on_discord :
      {A : Type 0}
      → Action (DiscordState J site.kinds site.dapi site.members) MSyscallError A
      → Action Master Stop A
  on_discord f s =
      let (d, r) = f (record {
        handler = s.handler;
        guild_members_cache = s.guild_members_cache;
        web = s.web;
      }) in
      (
        record s { handler = d.handler; guild_members_cache = d.guild_members_cache; web = d.web },
        map_err returned r,
      )

  abbrev pub on_auth : {A : Type 0} → Action (AuthState site.codes) Stop A → Action Master Stop A
  on_auth f s =
      let (a, r) = f (record { oauth2_code_cache = s.oauth2_code_cache; web = s.web }) in
      (record s { oauth2_code_cache = a.oauth2_code_cache; web = a.web }, r)

  abbrev pub on_gkv : {A : Type 0} → Action (Db J) MSyscallError A → Action Master Stop A
  on_gkv f s =
      let (db, r) = f s.handler.db in
      (record s { handler = record s.handler { db = db } }, map_err returned r)

  unfoldable pub handle_syscall :
      {C : Type 0}
      → Moment C Json
      → MSyscallArgs V
      → MSyscallContext
      → Action Master Stop (MSyscallRet C)
  unfolding BotCalls.exec AuthCalls.exec GkvCalls.exec DiscordCalls.exec
  handle_syscall m (bot req) ctx = do
    out ← on_bot (
        BotCalls.exec site.kinds site.world site.ticket_codec m.meets m.request site.bad_id ctx req)
    pure (bot_ret out)
  handle_syscall m (discord req) ctx = do
    out ← on_discord (
        DiscordCalls.exec J site.kinds site.dapi site.members site.world.sf m.meets.stratum m.remote
          m.surroundings ctx req)
    pure (discord_ret out)
  handle_syscall m (auth req) ctx = do
    out ← on_auth (
        AuthCalls.exec site.world.sf site.uuids site.codes site.allowed_redirects m.discord
          m.surroundings ctx req)
    pure (auth_ret out)
  handle_syscall m (gkv req) ctx = do
    out ← on_gkv (GkvCalls.exec site.world m.surroundings.faults ctx req)
    pure (gkv_ret out)
