-- ===== src/Master/Bot/Laws.antt =====
-- What callers without administration rights can do with src/master/syscall/bot.rs.
use template_worker.Prelude.{
  ℕ, ◌≡◌, ◌⊎◌, refl, Bool, true, false, String, some, ok, err, List, arith, inl, inr, Bool-cases,
  Result-cases,
}
use template_worker.Worker.Tenant.{TenantId, guild, user}
use template_worker.Worker.SimpleEvent.{SimpleEvent, new_khronos_value, new_feed_ticket_request}
use template_worker.Geese.Signing.{Codec}
use template_worker.Geese.Feedticket.{Payload}
use template_worker.Geese.State.Tables.{World, Db}
use template_worker.Geese.State.Exec.{Request}
use template_worker.Master.Context.{
  MSyscallContext, context_insecure, is_secure, into_user_id, limit,
}
use template_worker.Master.Handler.{Kinds, Handler, on_limits, has_bot_single, has_bot}
use template_worker.Master.Bot.{
  MBotSyscall, Meets, check_target, dispatch, feed_ticket_call, get_blob_call, starts_with_web,
  get_bot_status_call, get_bot_commands, get_bot_config, get_bot_status, dispatch_event,
  dispatch_c_event, feed_ticket, get_blob_data, admin_relaxed_dispatch_event,
  admin_get_uncached_bot_status, admin_drop_tenant, admin_set_tenant_state_mod_flags, admin_state,
  admin_fetch_tenant_state, not_yourself,
}
use template_worker.Master.Bot.Admin.{exec}

-- The calls of administration
unfoldable pub is_admin : {V : Type 0} → MBotSyscall V → Bool
is_admin (admin_relaxed_dispatch_event id name value a b c) = true
is_admin admin_get_uncached_bot_status = true
is_admin (admin_drop_tenant id) = true
is_admin (admin_set_tenant_state_mod_flags id flags) = true
is_admin (admin_state id ops) = true
is_admin (admin_fetch_tenant_state id) = true
is_admin _ = false

-- A user may send to a guild, and to no other user.
abbrev pub IsAllowed : TenantId → ℕ → Type 0
IsAllowed (guild g) u = Unit {0}
IsAllowed (user v) u = u ≡ v

module _ {V J C : Type 0} (k : Kinds V J) (w : World V J) (ft_codec : Codec Payload) (m : Meets C)
    (rq : Request) (bad_id : String) (ctx : MSyscallContext) where
  -- A call of administration from a context that is not secure is refused before it has any effect.
  pub exec-insecure :
      (call : MBotSyscall V) (h : Handler k)
      → is_secure ctx ≡ false
      → is_admin call ≡ true
      → exec k w ft_codec m rq bad_id ctx call h ≡ (h, err context_insecure)
  unfolding exec is_admin
  exec-insecure (admin_relaxed_dispatch_event id name value a b c) h s e = ground arith
  exec-insecure admin_get_uncached_bot_status h s e = ground arith
  exec-insecure (admin_drop_tenant id) h s e = ground arith
  exec-insecure (admin_set_tenant_state_mod_flags id flags) h s e = ground arith
  exec-insecure (admin_state id ops) h s e = ground arith
  exec-insecure (admin_fetch_tenant_state id) h s e = ground arith
  exec-insecure get_bot_commands h s e = absurd (ground arith)
  exec-insecure get_bot_config h s e = absurd (ground arith)
  exec-insecure get_bot_status h s e = absurd (ground arith)
  exec-insecure (dispatch_event id name value) h s e = absurd (ground arith)
  exec-insecure (dispatch_c_event id name value) h s e = absurd (ground arith)
  exec-insecure (feed_ticket id topics) h s e = absurd (ground arith)
  exec-insecure (get_blob_data p q) h s e = absurd (ground arith)

  -- What a user may send: an event for the web or the request for a ticket, under the user's own name,
  -- and to no other user.
  abbrev pub IsOwnEvent : TenantId → SimpleEvent V → Type 0
  IsOwnEvent id ev =
      (u : ℕ) × (into_user_id ctx ≡ ok u)
      × (ev.author ≡ some u)
      × ((starts_with_web ev.name ≡ true) ⊎ (ev.name ≡ "FeedTicketRequest"))
      × IsAllowed id u

  -- What a call shares with the workers: their state, and the database
  abbrev pub shared : Handler k → k.pool.Fleet × Db J
  shared h = (h.fleet, h.db)

  -- The workers and the database are as before, or as one such event, given to a worker, leaves them.
  abbrev pub Sends : Handler k → Handler k → Type 0
  Sends h h' =
      (shared h' ≡ shared h)
      ⊎ ((id : TenantId) × (ev : SimpleEvent V) × IsOwnEvent id ev
          × (shared h' ≡ (k.pool.dispatch_event id ev (shared h)).0))

  check_target_keeps :
      (id : TenantId) (u : ℕ) (single allow : Bool) (text : String) (h : Handler k)
      → shared (check_target k w ft_codec m ctx id u single allow text h).0 ≡ shared h
  unfolding check_target has_bot
  check_target_keeps (guild g) u true allow text h =
      elim (Result-cases (has_bot_single k m.stratum m.now g h).1) [
        | inl (b, e) ↦ ground arith
        | inr (b, e) ↦ ground arith
      ]
  check_target_keeps (guild g) u false allow text h =
      elim (Result-cases (has_bot_single k m.stratum m.now g h).1) [
        | inl (b, e) ↦ ground arith
        | inr (b, e) ↦ ground arith
      ]
  check_target_keeps (user v) u single allow text h = ground arith

  check_target_own :
      (id : TenantId) (u : ℕ) (single : Bool) (text : String) (h : Handler k)
      → (check_target k w ft_codec m ctx id u single false text h).1 ≡ ok tt
      → IsAllowed id u
  unfolding check_target
  check_target_own (guild g) u true text h e = tt
  check_target_own (guild g) u false text h e = tt
  check_target_own (user x) u single text h e = ground arith

  dispatch-Sends :
      (single : Bool) (id : TenantId) (name : String) (value : V) (h : Handler k)
      → Sends h (dispatch k w ft_codec m ctx single id name value h).0
  unfolding dispatch
  dispatch-Sends single id name value h = elim (Bool-cases (starts_with_web name)) [
    | inr e ↦ inl (ground arith)
    | inl e ↦ elim (Result-cases (into_user_id ctx)) [
      | inr (x, q) ↦ inl (rw (e, q) refl)
      | inl (u, q) ↦
          let kept = check_target_keeps id u single false (not_yourself k w ft_codec m ctx) h in
          elim (Result-cases
            (check_target k w ft_codec m ctx id u single false (not_yourself k w ft_codec m ctx)
              h).1) [
                | inr (x, r) ↦ inl (ground (arith, kept))
                | inl (t, r) ↦ inr (
                  id,
                  new_khronos_value name (some u) value,
                  (
                    u,
                    q,
                    refl,
                    inl e,
                    check_target_own id u single (not_yourself k w ft_codec m ctx) h r,
                  ),
                  ground (arith, kept),
                )
              ]
    ]
  ]

  limits_keep :
      (op : String) (h : Handler k)
      → shared (on_limits k (limit k.governor ctx op m.now) h).0 ≡ shared h
  limits_keep op h = refl

  feed_ticket_call-Sends :
      (id : TenantId) (topics : List String) (h : Handler k)
      → Sends h (feed_ticket_call k w ft_codec m ctx id topics h).0
  unfolding feed_ticket_call
  feed_ticket_call-Sends id topics h =
      let text : String = "Cannot create tickets to users who are not yourself" in
      let limited = on_limits k (limit k.governor ctx "FeedTicket" m.now) h in
      elim (Result-cases (into_user_id ctx)) [
        | inr (x, q) ↦ inl (rw q refl)
        | inl (u, q) ↦
            let kept = check_target_keeps id u false false text limited.0 in
            elim (Result-cases limited.1) [
              | inr (x, r) ↦ inl (ground arith)
              | inl (t, r) ↦
                  elim (Result-cases
                    (check_target k w ft_codec m ctx id u false false text limited.0).1) [
                      | inr (x, c) ↦ inl (ground (arith, kept))
                      | inl (t', c) ↦ inr (
                        id,
                        new_feed_ticket_request (some u) topics,
                        (u, q, refl, inr refl, check_target_own id u false text limited.0 c),
                        ground (arith, kept),
                      )
                    ]
            ]
      ]

  blob_keeps :
      (p q : String) (h : Handler k) → shared (get_blob_call k w ft_codec m ctx p q h).0 ≡ shared h
  unfolding get_blob_call
  blob_keeps p q h = ground arith

  status_keeps : (h : Handler k) → shared (get_bot_status_call k w ft_codec m ctx h).0 ≡ shared h
  unfolding get_bot_status_call
  status_keeps h = refl

  -- A call from a context that is not secure asks at most one thing of the workers: an event whose name
  -- begins with Web, or the request for a ticket, under the name of the context's own user, and to no
  -- other user. The workers and the database are then as that event leaves them, and as before where
  -- nothing is sent. Every call is meant.
  pub exec-Sends :
      (call : MBotSyscall V) (h : Handler k)
      → is_secure ctx ≡ false
      → Sends h (exec k w ft_codec m rq bad_id ctx call h).0
  unfolding exec
  exec-Sends get_bot_commands h s = inl refl
  exec-Sends get_bot_config h s = inl refl
  exec-Sends get_bot_status h s = inl (status_keeps h)
  exec-Sends (dispatch_event id name value) h s = dispatch-Sends true id name value h
  exec-Sends (dispatch_c_event id name value) h s = dispatch-Sends false id name value h
  exec-Sends (feed_ticket id topics) h s = feed_ticket_call-Sends id topics h
  exec-Sends (get_blob_data p q) h s = inl (blob_keeps p q h)
  exec-Sends (admin_relaxed_dispatch_event id name value a b c) h s = inl (ground arith)
  exec-Sends admin_get_uncached_bot_status h s = inl (ground arith)
  exec-Sends (admin_drop_tenant id) h s = inl (ground arith)
  exec-Sends (admin_set_tenant_state_mod_flags id flags) h s = inl (ground arith)
  exec-Sends (admin_state id ops) h s = inl (ground arith)
  exec-Sends (admin_fetch_tenant_state id) h s = inl (ground arith)
