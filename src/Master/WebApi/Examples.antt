-- ===== src/Master/WebApi/Examples.antt =====
-- Requests to src/master/syscall/webapi.rs, and the websocket of a feed, at concrete events.
use template_worker.Prelude.{
  ℕ, ◌≤◌, ◌+◌, ◌≡◌, ◌⊎◌, true, refl, String, none, some, ok, List, [], ◌∷◌, arith, nat_eq,
  string_eq, pair_eq,
}
use template_worker.Worker.Tenant.{TenantId, guild}
use template_worker.Geese.Feedticket.Examples.{sample_codec}
use template_worker.Geese.State.Examples.{small_world, small_db, quiet}
use template_worker.Master.Examples.{
  timed, small_kinds, small_handler, small_web, small_uuids, calm,
}
use template_worker.Master.Sessions.Tokens.{not_sent}
use template_worker.Master.Bot.{dispatch_event, starts_with_web}
use template_worker.Master.Bot.Laws.{IsAllowed}
use template_worker.Worker.SimpleEvent.{SimpleEvent}
use template_worker.Master.Bot.Examples.{small_meets}
use template_worker.Master.Discord.Examples.{small_dapi, small_remote}
use template_worker.Master.Syscall.{Site, Moment, Master, bot}
use template_worker.Master.WebApi.{
  msyscall, optional_user, from_request_parts, context_of, AuthorizedUser,
}
use template_worker.Master.Sessions.{check_web_auth}
use template_worker.Master.Syscall.{handle_syscall}
use template_worker.Master.Bot.Admin.{exec}
use template_worker.Master.Bot.{dispatch, check_target}
use template_worker.Master.Handler.{has_bot_single}
use template_worker.Master.Context.{into_user_id}
use template_worker.Prelude.Rows.{first, delete}
use template_worker.Master.Examples.{find}
use template_worker.Master.WebApi.Laws.{
  msyscall_sends, both_of, run-silent, AreSilent, ticks, AreOther, IsAttentive, IsSilent, IsOther,
}
use template_worker.Master.WebApi.Socket.{
  WsEvent, tick, from_client, from_topic, text, other_frame, hb, failed, opened, run, close_frame,
}

abbrev small_site : Site ℕ ℕ ℕ
small_site = record {
  kinds = small_kinds;
  world = small_world;
  ticket_codec = sample_codec;
  dapi = small_dapi;
  members = timed 300;
  codes = timed 600;
  uuids = small_uuids;
  allowed_redirects = [];
  bad_id = "bad";
}

abbrev moment : Moment String ℕ
moment = record {
  meets = small_meets;
  request = quiet;
  surroundings = calm 400;
  discord = record { oauth2_token = λ c u v. not_sent "down"; users_me = λ t. not_sent "down" };
  remote = small_remote;
}

abbrev small_master : Master small_site
small_master = record {
  handler = small_handler;
  guild_members_cache = [];
  oauth2_code_cache = [];
  web = small_web;
}

abbrev after_go : Master small_site
after_go =
    (msyscall small_site moment (some (some "abc")) (bot (dispatch_event (guild 3) "WebGo" 7))
      small_master).0

-- The event reaches a worker, and the code that it runs there empties a table of the database.
goes : both_of small_site moment after_go ≡ (guild 3 ∷ [], record small_db { tenant_kv = [] })
unfolding msyscall optional_user from_request_parts check_web_auth context_of handle_syscall exec
    dispatch check_target has_bot_single into_user_id first delete find
goes = refl

msyscall_sends_example :
    (both_of small_site moment after_go ≡ both_of small_site moment small_master)
    ⊎ ((who : AuthorizedUser) × (id : TenantId) × (ev : SimpleEvent ℕ) × ((optional_user small_site
            (calm 400)
            (some (some "abc"))
            small_web).1
          ≡ ok (some who))
        × (ev.author ≡ some who.user_id)
        × ((starts_with_web ev.name ≡ true) ⊎ (ev.name ≡ "FeedTicketRequest"))
        × IsAllowed id who.user_id
        × (both_of small_site moment after_go
            ≡ (small_kinds.pool.dispatch_event id ev (both_of small_site moment small_master)).0))
msyscall_sends_example =
    msyscall_sends small_site moment (some (some "abc")) (bot (dispatch_event (guild 3) "WebGo" 7))
      small_master

abbrev silence : List (WsEvent ℕ)
silence =
    tick none
    ∷ tick none
    ∷ from_topic "t" 1 none
    ∷ tick none
    ∷ from_client other_frame
    ∷ tick none
    ∷ tick none
    ∷ []

silent : AreSilent silence
unfolding AreSilent IsSilent
silent = (refl, (refl, (refl, (refl, (refl, (refl, (refl, tt)))))))

five : 5 ≤ 0 + ticks silence
unfolding ticks
five = omega arith

run-silent_example : (run silence opened).1 ≡ some (failed "Client heartbeat timeout")
run-silent_example = run-silent silence opened silent five (omega arith)

abbrev chatter : List (WsEvent ℕ)
chatter =
    tick none ∷ tick none ∷ tick none ∷ tick none ∷ from_client (text (ok hb)) ∷ tick none ∷ []

other : AreOther chatter
unfolding AreOther IsOther
other = ((λ e. cc), ((λ e. cc), ((λ e. cc), ((λ e. cc), (tt, ((λ e. cc), tt))))))

attentive : IsAttentive 0 chatter
unfolding IsAttentive
attentive = (omega arith, (omega arith, (omega arith, (omega arith, (omega arith, tt)))))

-- The fifth interval ends the socket; the close frame says so.
closed :
    close_frame (failed "Client heartbeat timeout")
    ≡ (4000, "Error occured: Client heartbeat timeout")
unfolding close_frame
closed = refl
