-- ===== src/Master/Syscall/Laws.antt =====
-- What a call of src/master/syscall/mod.rs can do without administration rights.
use template_worker.Prelude.{◌≡◌, sym, subst, false, arith, inl}
use template_worker.Prelude.Clean.{Keeps}
use template_worker.Master.Context.{MSyscallContext, is_secure}
use template_worker.Master.Bot.{MBotSyscall}
use template_worker.Master.Bot.Laws.{Sends, exec-Sends}
use template_worker.Master.Bot.Admin as BotCalls
use template_worker.Master.Gkv.Laws.{gkv_exec_keeps}
use template_worker.Master.Discord.Keeps.{exec-Keeps}
use template_worker.Master.Syscall.{
  Site, Moment, MSyscallArgs, bot, discord, auth, gkv, Master, handle_syscall,
}

module _ {V J Json C : Type 0} (site : Site V J Json) (m : Moment C Json)
    (ctx : MSyscallContext) where
  handle_syscall-bot :
      (req : MBotSyscall V) (s : Master site)
      → (handle_syscall site m (bot req) ctx s).0.handler
        ≡ (BotCalls.exec site.kinds site.world site.ticket_codec m.meets m.request site.bad_id ctx
            req s.handler).0
  unfolding handle_syscall
  handle_syscall-bot req s = ground arith

  -- A call from a context that is not secure, whichever group it is of, sends at most one event to the
  -- workers, and otherwise leaves them and the tenants' tables as they are.
  pub handle_syscall-Sends :
      (args : MSyscallArgs V) (s : Master site)
      → is_secure ctx ≡ false
      → Sends site.kinds site.world site.ticket_codec m.meets m.request site.bad_id ctx s.handler
          (handle_syscall site m args ctx s).0.handler
  unfolding handle_syscall Keeps
  handle_syscall-Sends (bot req) s h =
      subst
        (λ h'.
          Sends site.kinds site.world site.ticket_codec m.meets m.request site.bad_id ctx s.handler
            h')
        (sym (handle_syscall-bot req s))
        (exec-Sends site.kinds site.world site.ticket_codec m.meets m.request site.bad_id ctx req
          s.handler h)
  handle_syscall-Sends (discord req) s h = inl (
      ground (
        arith,
        exec-Keeps J site.kinds site.dapi site.members site.world.sf m.meets.stratum m.remote
            m.surroundings ctx req
            (record {
              handler = s.handler;
              guild_members_cache = s.guild_members_cache;
              web = s.web;
            }),
      ))
  handle_syscall-Sends (auth req) s h = inl (ground arith)
  handle_syscall-Sends (gkv req) s h =
      inl (ground (arith, gkv_exec_keeps site.world m.surroundings.faults ctx req s.handler.db h))
