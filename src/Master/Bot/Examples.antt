-- ===== src/Master/Bot/Examples.antt =====
-- The calls of src/master/syscall/bot.rs at concrete requests.
use template_worker.Prelude.{ℕ, ◌≡◌, refl, false, true, String, none, some, err, [], ◌∷◌}
use template_worker.Worker.Tenant.{guild, user}
use template_worker.Geese.TenantState.{ModFlags, TenantState, get_tenant_state_for}
use template_worker.Geese.Feedticket.Examples.{sample_codec}
use template_worker.Geese.State.Examples.{small_world, small_db, quiet}
use template_worker.Master.Context.{api_token, api_secure, context_insecure, is_secure}
use template_worker.Master.Examples.{small_kinds, small_handler, small_stratum}
use template_worker.Master.Bot.{
  Meets, dispatch_event, admin_drop_tenant, admin_set_tenant_state_mod_flags, ack,
}
use template_worker.Master.Bot.Admin.{exec, put_mod_flags}
use template_worker.Master.Bot.Laws.{Sends, exec-Sends, exec-insecure, is_admin}
use template_worker.Master.Bot.Modflags.{exec-admin_set_tenant_state_mod_flags}
use template_worker.Prelude.Actions.{pure, ◌>>=◌}
use template_worker.Master.Handler.{on_fleet}

abbrev pub small_meets : Meets String
small_meets = record {
  now = 10;
  now_secs = 10;
  start_time = 1;
  stratum = small_stratum;
  blob_fault = none;
  commands = "ping" ∷ [];
  support_server_invite = "https://invite";
  client_id = 9;
}

insecure : is_secure (api_token 2) ≡ false
unfolding is_secure
insecure = refl

drops : is_admin {V = ℕ} (admin_drop_tenant (guild 3)) ≡ true
unfolding is_admin
drops = refl

exec-insecure_example :
    exec small_kinds small_world sample_codec small_meets quiet "bad"
      (api_token 2)
      (admin_drop_tenant (guild 3))
      small_handler
    ≡ (small_handler, err context_insecure)
exec-insecure_example =
    exec-insecure small_kinds small_world sample_codec small_meets quiet "bad" (api_token 2)
      (admin_drop_tenant (guild 3)) small_handler insecure drops

exec-Sends_example :
    Sends small_kinds small_world sample_codec small_meets quiet "bad"
      (api_token 2)
      small_handler
      (exec small_kinds small_world sample_codec small_meets quiet "bad"
        (api_token 2)
        (dispatch_event (guild 3) "WebGo" 7)
        small_handler).0
exec-Sends_example =
    exec-Sends small_kinds small_world sample_codec small_meets quiet "bad" (api_token 2)
      (dispatch_event (guild 3) "WebGo" 7) small_handler insecure

abbrev banned : ModFlags
banned = record { banned = true; can_manage_guild_commands = false }

secure : is_secure (api_secure 9) ≡ true
unfolding is_secure
secure = refl

exec-admin_set_tenant_state_mod_flags_example :
    (ts : TenantState) × (get_tenant_state_for small_world.sf
        (user 2)
        (put_mod_flags small_world (user 2) banned small_db).states
      ≡ some ts)
    × (ts.modflags ≡ banned)
    × (exec small_kinds small_world sample_codec small_meets quiet "bad"
          (api_secure 9)
          (admin_set_tenant_state_mod_flags (user 2) banned)
          small_handler
        ≡ (on_fleet small_kinds (small_kinds.pool.update_tenant_state (user 2) ts)
              >>= (λ reload. pure ack))
            (record small_handler { db = put_mod_flags small_world (user 2) banned small_db }))
exec-admin_set_tenant_state_mod_flags_example =
    exec-admin_set_tenant_state_mod_flags small_kinds small_world sample_codec small_meets quiet
      "bad" (api_secure 9) (user 2) banned small_handler secure (refl, (λ n. refl), refl, refl)
