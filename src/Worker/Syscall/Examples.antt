-- ===== src/Worker/Syscall/Examples.antt =====
-- Syscalls of one VM: a subscription, and a download.
use template_worker.Prelude.{
  ℕ, ◌≡◌, ◌≤◌, refl, String, Bool, true, false, none, some, Result, ok, err, List, [], ◌∷◌, arith,
  string_eq,
}
use template_worker.Prelude.Rows.{any, select, first, length, insert_new}
use template_worker.Prelude.Dict.{get, insert}
use template_worker.Worker.Tenant.{user, id_eq, worker_id, tenant_type, tenant_id}
use template_worker.Worker.Tenant.Examples.{unary}
use template_worker.Geese.TenantState.{
  is_default_event, get_tenant_state_for, into_tenant_state_single, partial_state, add_all_refs,
  add_refs, set_from_iter, group_by_event, add_to_group, from_bits_truncate, to_u8,
}
use template_worker.Geese.Ratelimit.{Governor}
use template_worker.Geese.State.Ops.{
  StateOp, from_ops, is_faststate_eligible, convert_ops, bits, from_bits, alters_tenant_state,
}
use template_worker.Geese.State.Events.{subscribe_event_op, subscribes, put_subscription}
use template_worker.Geese.State.Exec.{do_op, is_fastpath, apply_ops, apply_op}
use template_worker.Geese.State.Changes.{keeps_key, has_owners}
use template_worker.Geese.State.Examples.{small_db, quiet}
use template_worker.Mesophyll.Proto.{
  from_real_id, to_real_id, to_real, from_real, to_real_exec, from_real_exec,
}
use template_worker.Mesophyll.Server.{accept, verify_worker, exec_state_op}
use template_worker.Mesophyll.Client.{client_exec_state_op}
use template_worker.Mesophyll.Examples.{small_channel, subscribed_state}
use template_worker.Worker.Node.{get_cached_tenant_state_for, reload_for_tenant}
use template_worker.Worker.Dispatch.{System}
use template_worker.Worker.Dispatch.{dispatch_event_complex}
use template_worker.Worker.Dispatch.Subscribed.{
  is_subscription, dispatch_event_complex-unsubscribed,
}
use template_worker.Worker.Examples.{failing, event, small_node, small_system, mark_fails}
use template_worker.Worker.Syscall.{SyscallRet, Surroundings, state_syscall}
use template_worker.Worker.Syscall.Cdn.{
  Url, Response, Http, max_attachment_size, is_ascii, is_discord_cdn, contains, check_url, receive,
  download_file,
}
use template_worker.Prelude.{ltb, Option}
use template_worker.Worker.Tenant.{guild}
use template_worker.Worker.Syscall.Discord.{Stratum, get_channel}
use template_worker.Worker.Syscall.Laws.{IsCdn, download_file-eq-ok}
use template_worker.Worker.Coherence.{stored, state_syscall-current}

abbrev cdn_url : Url
cdn_url = record {
  scheme = "https";
  domain = some "cdn.discordapp.com";
  path = "/a";
  host_str = some "cdn.discordapp.com";
  port = none;
}

abbrev small_http : Http
small_http = record {
  parse = λ s. ok cdn_url;
  send = λ u. ok (record { content_length = some 2; body = ok (1 ∷ 2 ∷ []) });
}

abbrev open_governor : Governor (Unit {0})
open_governor = record {
  Limiter = ℕ;
  NotUntil = ℕ;
  check_key = λ l k now. (l, none);
  wait_time_from = λ n now. n;
}

abbrev around : Surroundings ℕ ℕ ℕ
around = record {
  g = open_governor;
  show_duration = λ n. "1s";
  mark_broken = mark_fails;
  http = small_http;
  api_name = λ a. "GetChannel";
  execute = λ id a. ok a;
  get_status = ok (1, 2);
  start_time = 7;
  now = 100;
  request = quiet;
}

downloaded : download_file small_http "https://cdn.discordapp.com/a" ≡ ok (1 ∷ 2 ∷ [])
unfolding download_file check_url receive is_ascii is_discord_cdn contains
downloaded = refl

download_file-eq-ok_example :
    ((u : Url) × (small_http.parse "https://cdn.discordapp.com/a" ≡ ok u) × IsCdn u)
    × (length {A = ℕ} (1 ∷ 2 ∷ []) ≤ max_attachment_size)
download_file-eq-ok_example =
    download_file-eq-ok small_http "https://cdn.discordapp.com/a" (1 ∷ 2 ∷ []) downloaded

-- A network that answers only for the CDN
abbrev answer_cdn : Bool → Result String Response
answer_cdn true = ok (record { content_length = some 2; body = ok (1 ∷ 2 ∷ []) })
answer_cdn false = err "unreachable"

abbrev cdn_only : Url → Result String Response
cdn_only u = answer_cdn (is_discord_cdn u.domain)

alike : (u : Url) → IsCdn u → small_http.send u ≡ cdn_only u
unfolding is_discord_cdn
alike u (https, domain, path, port) = rw domain refl

abbrev subscription : List (StateOp ℕ)
subscription = StateOp.subscribe_event "GUILD" "x" ∷ []

abbrev after : System ℕ ℕ ℕ
after = record {
  node = record { vms = []; cache = (user 2, subscribed_state) ∷ [] };
  db = put_subscription small_channel.world (user 2) "GUILD" "x" small_db;
}

key_kept : keeps_key small_db.states ≡ true
unfolding has_owners any
key_kept = refl

current :
    get_cached_tenant_state_for (user 2) small_node
    ≡ stored (get_tenant_state_for unary (user 2) small_db.states)
unfolding get_cached_tenant_state_for get get_tenant_state_for first select into_tenant_state_single
    partial_state add_all_refs add_refs set_from_iter group_by_event add_to_group from_bits_truncate
    to_u8 insert tenant_id tenant_type any
current = refl

answered :
    state_syscall small_channel around (user 2) subscription small_system
    ≡ (after, ok (SyscallRet.state [] (some subscribed_state)))
unfolding state_syscall from_ops is_faststate_eligible convert_ops any client_exec_state_op
    from_real_exec from_real_id exec_state_op accept verify_worker to_real_id to_real from_real
    to_real_exec from_bits bits worker_id do_op is_fastpath apply_ops apply_op subscribe_event_op
    subscribes put_subscription insert_new is_default_event alters_tenant_state get_tenant_state_for
    first select into_tenant_state_single partial_state add_all_refs add_refs set_from_iter
    group_by_event add_to_group from_bits_truncate to_u8 get insert tenant_id tenant_type
    reload_for_tenant
answered = refl

state_syscall-current_example :
    (keeps_key after.db.states ≡ true)
    × (get_cached_tenant_state_for (user 2) after.node
        ≡ stored (get_tenant_state_for unary (user 2) after.db.states))
state_syscall-current_example =
    state_syscall-current small_channel around (user 2) (user 2) subscription small_system after
      (SyscallRet.state [] (some subscribed_state)) (omega arith) (omega arith) key_kept current
      answered

abbrev guild_of : Bool → Option String
guild_of true = some "111"
guild_of false = none

-- Channels are numbers; those above 10 are of the guild 3, others of no guild.
abbrev small_stratum : Stratum ℕ
small_stratum = record {
  guild = λ g. ok none;
  guild_member = λ g u. ok none;
  guild_channels = λ g. ok none;
  guild_roles = λ g. ok none;
  channel = λ c. ok (some c);
  null = 0;
  get_string = λ v k. guild_of (ltb 10 v);
}

shown : get_channel unary small_stratum (guild 3) 12 ≡ ok 12
unfolding get_channel
shown = refl

not_default : is_default_event "TYPING" ≡ false
unfolding is_default_event
not_default = refl

not_subscribed :
    is_subscription small_channel failing (user 2) (event "TYPING") small_system ≡ false
unfolding any tenant_id tenant_type
not_subscribed = refl

dispatch_event_complex-unsubscribed_example :
    dispatch_event_complex small_channel failing (user 2) (event "TYPING") small_system
    ≡ (small_system, ok 0)
dispatch_event_complex-unsubscribed_example =
    dispatch_event_complex-unsubscribed small_channel failing (user 2) (event "TYPING") small_system
      current not_default not_subscribed
