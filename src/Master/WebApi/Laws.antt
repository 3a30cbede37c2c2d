-- ===== src/Master/WebApi/Laws.antt =====
-- What a request to src/master/syscall/webapi.rs can do, and when its websocket ends.
use template_worker.Prelude.{
  ℕ, ◌+◌, ◌≤◌, ◌<◌, ◌≡◌, ◌≢◌, ◌⊎◌, ◌∙◌, ap, subst, true, refl, false, String, Option, none, some,
  ok, err, List, [], ◌∷◌, ltb, arith, inl, inr, Result-cases, Bool-cases, eq_iff,
}
use template_worker.Master.Context.{is_secure, into_user_id}
use template_worker.Master.Syscall.{Site, Moment, MSyscallArgs, Master}
use template_worker.Master.Syscall.Laws.{handle_syscall-Sends}
use template_worker.Master.Bot.{starts_with_web}
use template_worker.Master.Bot.Laws.{IsAllowed}
use template_worker.Worker.Tenant.{TenantId}
use template_worker.Worker.SimpleEvent.{SimpleEvent}
use template_worker.Geese.State.Tables.{Db}
use template_worker.Master.WebApi.{AuthorizedUser, context_of, optional_user, on_web, msyscall}
use template_worker.Master.WebApi.Socket.{
  WsEvent, tick, from_client, from_topic, text, other_frame, broken, gone, hb, feed, Socket, failed,
  handle, run, max_missed_hb,
}

context_of-is_secure : (user : Option AuthorizedUser) → is_secure (context_of user) ≡ false
unfolding is_secure context_of
context_of-is_secure none = refl
context_of-is_secure (some u) = ground arith

context_of-user :
    (user : Option AuthorizedUser) (u : ℕ)
    → into_user_id (context_of user) ≡ ok u
    → (a : AuthorizedUser) × (user ≡ some a) × (u ≡ a.user_id)
unfolding into_user_id context_of
context_of-user none u h = absurd (ground arith)
context_of-user (some a) u h = (a, refl, ground arith)

module _ {V J Json C : Type 0} (site : Site V J Json) (m : Moment C Json) where
  -- What the master shares with the workers: their state, and the tenants' tables
  abbrev pub both_of : Master site → site.kinds.pool.Fleet × Db J
  both_of s = (s.handler.fleet, s.handler.db)

  -- A request to /msyscall, whatever token it comes with and whatever it asks for, leaves the workers and
  -- the tenants' tables as they are, or as one event leaves them that it sends to a worker. The event is
  -- then one whose name begins with Web or the request for a ticket, its author is the user whose token
  -- the request has, and it does not go to another user.
  pub msyscall_sends :
      (header : Option (Option String)) (args : MSyscallArgs V) (s : Master site)
      → (both_of (msyscall site m header args s).0 ≡ both_of s)
        ⊎ ((user : AuthorizedUser) × (id : TenantId) × (ev : SimpleEvent V) × ((optional_user site
                m.surroundings header s.web).1
              ≡ ok (some user))
            × (ev.author ≡ some user.user_id)
            × ((starts_with_web ev.name ≡ true) ⊎ (ev.name ≡ "FeedTicketRequest"))
            × IsAllowed id user.user_id
            × (both_of (msyscall site m header args s).0
                ≡ (site.kinds.pool.dispatch_event id ev (both_of s)).0))
  unfolding msyscall
  msyscall_sends header args s =
      elim (Result-cases (optional_user site m.surroundings header s.web).1) [
        | inr (e, q) ↦ inl (ground arith)
        | inl (user, q) ↦
            let s' = (on_web site (optional_user site m.surroundings header) s).0 in
            elim (handle_syscall-Sends site m (context_of user) args s'
              (context_of-is_secure user)) [
                | inl k ↦ inl (ground (arith, q, k))
                | inr (id, ev, (u, c, a, n, l), k) ↦
                    let (who, p, w) = context_of-user user u c in
                    inr (
                      who,
                      id,
                      ev,
                      q ∙ ap ok p,
                      a ∙ ap some w,
                      n,
                      subst (IsAllowed id) w l,
                      ground (arith, q, k),
                    )
              ]
      ]

module _ {V : Type 0} where
  -- The client sends nothing that counts, and what is sent to it arrives.
  unfoldable pub IsSilent : WsEvent V → Type 0
  IsSilent (tick fault) = fault ≡ none
  IsSilent (from_topic topic msg fault) = fault ≡ none
  IsSilent (from_client m) = m ≡ other_frame

  unfoldable pub AreSilent : List (WsEvent V) → Type 0
  unfolding IsSilent
  AreSilent [] = Unit {0}
  AreSilent (e ∷ es) = IsSilent e × AreSilent es

  abbrev pub one : WsEvent V → ℕ
  one (tick fault) = 1
  one (from_topic topic msg fault) = 0
  one (from_client m) = 0

  unfoldable pub ticks : List (WsEvent V) → ℕ
  ticks [] = 0
  ticks (e ∷ es) = one e + ticks es

  -- A client that stays silent is dropped: with the missed heartbeats that were counted before, five
  -- intervals are enough, whatever the topics bring in between.
  pub run-silent :
      (es : List (WsEvent V)) (s : Socket V)
      → AreSilent es
      → 5 ≤ s.missed_heartbeats + ticks es
      → s.missed_heartbeats ≤ 4
      → (run es s).1 ≡ some (failed "Client heartbeat timeout")
  unfolding run handle AreSilent IsSilent ticks
  run-silent [] s q n le = absurd (omega arith)
  run-silent (tick fault ∷ es) s (q, qs) n le =
      elim (Bool-cases (ltb max_missed_hb s.missed_heartbeats)) [
        | inl e ↦ ground arith
        | inr e ↦
            let next : Socket V = record {
              missed_heartbeats = s.missed_heartbeats + 1;
              sent = hb ∷ s.sent;
            } in
            ground (arith, run-silent es next qs (ground arith) (ground arith))
      ]
  run-silent (from_topic topic msg fault ∷ es) s (q, qs) n le =
      rw q (run-silent es (record s { sent = feed topic msg ∷ s.sent }) qs (omega arith) le)
  run-silent (from_client m ∷ es) s (q, qs) n le = rw q (run-silent es s qs (omega arith) le)

  -- The client sends a heartbeat before a fifth interval passes.
  unfoldable pub IsAttentive : ℕ → List (WsEvent V) → Type 0
  IsAttentive missed [] = Unit {0}
  IsAttentive missed (tick fault ∷ es) = (missed < 4) × IsAttentive (missed + 1) es
  IsAttentive missed (from_topic topic msg fault ∷ es) = IsAttentive missed es
  IsAttentive missed (from_client (text (ok hb)) ∷ es) = IsAttentive 0 es
  IsAttentive missed (from_client m ∷ es) = IsAttentive missed es

  -- A fault of the connection whose text is that of the timeout does not count as one.
  unfoldable pub IsOther : WsEvent V → Type 0
  IsOther (tick fault) = fault ≢ some "Client heartbeat timeout"
  IsOther (from_topic topic msg fault) = fault ≢ some "Client heartbeat timeout"
  IsOther (from_client (text (err e))) = e ≢ "Client heartbeat timeout"
  IsOther (from_client (broken e)) = e ≢ "Client heartbeat timeout"
  IsOther (from_client m) = Unit {0}

  unfoldable pub AreOther : List (WsEvent V) → Type 0
  unfolding IsOther
  AreOther [] = Unit {0}
  AreOther (e ∷ es) = IsOther e × AreOther es

  -- A client that sends a heartbeat before five intervals have passed without one is never dropped for
  -- its heartbeats, as long as the connection itself does not fail with that very text.
  pub run-attentive :
      (es : List (WsEvent V)) (s : Socket V)
      → AreOther es
      → IsAttentive s.missed_heartbeats es
      → (run es s).1 ≢ some (failed "Client heartbeat timeout")
  unfolding run handle AreOther IsOther IsAttentive
  run-attentive [] s o a e = ground arith
  run-attentive (tick none ∷ es) s (o, os) (lt, a) e =
      let next : Socket V = record {
        missed_heartbeats = s.missed_heartbeats + 1;
        sent = hb ∷ s.sent;
      } in
      run-attentive es next os a (ground arith)
  run-attentive (tick (some t) ∷ es) s (o, os) (lt, a) e = o (ground arith)
  run-attentive (from_topic topic msg none ∷ es) s (o, os) a e =
      run-attentive es (record s { sent = feed topic msg ∷ s.sent }) os a e
  run-attentive (from_topic topic msg (some t) ∷ es) s (o, os) a e = o (ground arith)
  run-attentive (from_client (text (ok hb)) ∷ es) s (o, os) a e =
      run-attentive es (record s { missed_heartbeats = 0 }) os a e
  run-attentive (from_client (text (ok (feed topic msg))) ∷ es) s (o, os) a e =
      ground (arith, eq_iff "Feed is server-sent" "Client heartbeat timeout")
  run-attentive (from_client (text (err t)) ∷ es) s (o, os) a e = o (ground arith)
  run-attentive (from_client other_frame ∷ es) s (o, os) a e = run-attentive es s os a e
  run-attentive (from_client (broken t) ∷ es) s (o, os) a e = o (ground arith)
  run-attentive (from_client gone ∷ es) s (o, os) a e = ground arith
