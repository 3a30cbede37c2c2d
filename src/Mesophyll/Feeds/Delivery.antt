-- ===== src/Mesophyll/Feeds/Delivery.antt =====
-- What a subscriber of a feed of src/mesophyll/server.rs is sent.
use mathlib.Core.Path.{◌≡◌}
use native.Mathlib.Omega.{arith}
use template_worker.Prelude.{
  ℕ, true, false, ◌&&◌, String, some, List, nat_beq, string_eq, ◌==◌, Option-cases, Bool-cases, inl,
  inr, Result-cases, ok,
}
use template_worker.Prelude.Dict.{get, insert, get-insert}
use template_worker.Prelude.Rows.{any}
use template_worker.Worker.Tenant.{TenantId, IsValid, id_eq}
use template_worker.Mesophyll.Proto.{
  Wire, Status, to_real_id, to_real, from_real, to_real_id-from_real_id,
}
use template_worker.Mesophyll.Feeds.{
  Broadcast, TopicGuard, Topics, Streams, or_empty, subscribe_all, subscribe_topics, drop_topics,
  sender_of, release, publish_feed, feed_message, client_publish_feed, Step, Reaches, subscribes,
  publishes, drops, releases, here, further, PublishFeedMessage, is_receiver,
}
use template_worker.Mesophyll.Feeds.Laws.{sender_of-drop_topics}
use template_worker.Mesophyll.Feeds.Receivers.{
  heard-receiver, other_kept, subscribe_all_keeps, subscribed,
}

module _ {V : Type 0} (b : Broadcast V) where
  module _ (id : TenantId) (t : String) (r : ℕ) where
    -- A sender is put in the place of another one.
    replaced_keeps :
        (j : TenantId) (u : String) (tx tx' : b.Sender) (ts : Topics b) (s : Streams b)
        → get j s ≡ some ts
        → get u ts ≡ some tx
        → (((j == id) && (u == t)) ≡ true
            → any (nat_beq r) (b.receivers tx) ≡ true
            → any (nat_beq r) (b.receivers tx') ≡ true)
        → is_receiver b r (sender_of b id t s) ≡ true
        → is_receiver b r (sender_of b id t (insert j (insert u tx' ts) s)) ≡ true
    unfolding sender_of
    replaced_keeps j u tx tx' ts s q p f h = elim (Bool-cases ((j == id) && (u == t))) [
      | inl e ↦ ground (
        arith,
        q,
        p,
        get-insert j id (insert u tx' ts) s,
        get-insert u t tx' ts,
        id_eq.beq_iff j id,
        string_eq.beq_iff u t,
        f e,
      )
      | inr e ↦ ground (
        arith,
        q,
        p,
        get-insert j id (insert u tx' ts) s,
        get-insert u t tx' ts,
        id_eq.beq_iff j id,
        string_eq.beq_iff u t,
      )
    ]

    subscribe_topics_keeps :
        (j : TenantId) (topics : List String) (s : Streams b)
        → is_receiver b r (sender_of b id t s) ≡ true
        → is_receiver b r (sender_of b id t (subscribe_topics b j topics s).0) ≡ true
    unfolding subscribe_topics sender_of
    subscribe_topics_keeps j topics s h = ground (
      arith,
      get-insert j id (subscribe_all b topics (or_empty b (get j s))).0 s,
      id_eq.beq_iff j id,
      subscribe_all_keeps b r t topics (or_empty b (get id s)),
    )

    drop_topics_keeps :
        (g : TopicGuard) (s : Streams b)
        → is_receiver b r (sender_of b id t s) ≡ true
        → is_receiver b r (sender_of b id t (drop_topics b g s)) ≡ true
    drop_topics_keeps g s h =
        ground (arith, sender_of-drop_topics b g id t s, heard-receiver b r (sender_of b id t s) h)

    publish_feed_keeps :
        (wire : Wire V) (req : PublishFeedMessage) (s : Streams b)
        → is_receiver b r (sender_of b id t s) ≡ true
        → is_receiver b r (sender_of b id t (publish_feed b wire req s).0) ≡ true
    unfolding publish_feed
    publish_feed_keeps wire req s h = elim (Option-cases req.id) [
      | inl e ↦ ground (arith, e)
      | inr (pb_id, e) ↦ elim (Option-cases (get (to_real_id pb_id) s)) [
        | inl q ↦ ground (arith, e, q)
        | inr (ts, q) ↦ elim (Option-cases (get req.topic ts)) [
          | inl p ↦ ground (arith, e, q, p)
          | inr (tx, p) ↦ elim (Option-cases req.payload) [
            | inl f ↦ ground (arith, e, q, p, f)
            | inr (bytes, f) ↦ elim (Result-cases (to_real wire bytes)) [
              | inr (st, d) ↦ ground (arith, e, q, p, f, d)
              | inl (v, d) ↦ ground (
                arith,
                e,
                q,
                p,
                f,
                d,
                replaced_keeps (to_real_id pb_id) req.topic tx (b.send v tx) ts s q p
                    (λ _ k. rw (b.receivers-send v tx) k) h,
              )
            ]
          ]
        ]
      ]
    ]

    release_keeps :
        (j : TenantId) (u : String) (k : ℕ) (s : Streams b)
        → ((j == id) && (u == t) && nat_beq k r) ≡ false
        → is_receiver b r (sender_of b id t s) ≡ true
        → is_receiver b r (sender_of b id t (release b j u k s)) ≡ true
    unfolding release
    release_keeps j u k s n h = elim (Option-cases (get j s)) [
      | inl q ↦ ground (arith, q)
      | inr (ts, q) ↦ elim (Option-cases (get u ts)) [
        | inl p ↦ ground (arith, q, p)
        | inr (tx, p) ↦ ground (
          arith,
          q,
          p,
          replaced_keeps j u tx (b.release k tx) ts s q p
              (λ e g.
                rw (b.receivers-release k tx)
                  (other_kept b r k (b.receivers tx) (ground (arith, n, e)) g))
              h,
        )
      ]
    ]

    step_keeps :
        (wire : Wire V) (s s' : Streams b)
        → Step b wire id t r s s'
        → is_receiver b r (sender_of b id t s) ≡ true
        → is_receiver b r (sender_of b id t s') ≡ true
    step_keeps wire _ _ (subscribes j topics s) h = subscribe_topics_keeps j topics s h
    step_keeps wire _ _ (publishes req s) h = publish_feed_keeps wire req s h
    step_keeps wire _ _ (drops g s) h = drop_topics_keeps g s h
    step_keeps wire _ _ (releases j u k s n) h = release_keeps j u k s n h

    reached_keeps :
        (wire : Wire V) (s s' : Streams b)
        → Reaches b wire id t r s s'
        → is_receiver b r (sender_of b id t s) ≡ true
        → is_receiver b r (sender_of b id t s') ≡ true
    reached_keeps wire _ _ (here s) h = h
    reached_keeps wire s _ (further {q = q} {s = s'} run st) h =
        step_keeps wire q s' st (reached_keeps wire s q run h)

  sent :
      (wire : Wire V) (id : TenantId) (t : String) (r : ℕ) (s : Streams b) (bytes : List ℕ) (v : V)
      → IsValid id
      → is_receiver b r (sender_of b id t s) ≡ true
      → to_real wire bytes ≡ ok v
      → ((publish_feed b wire (feed_message b id t bytes) s).1 ≡ ok tt)
        × ((tx : b.Sender) × (sender_of b id t (publish_feed b wire (feed_message b id t bytes) s).0
              ≡ some tx)
            × (b.newest r tx ≡ some v))
  unfolding publish_feed sender_of
  sent wire id t r s bytes v valid h d = elim (Option-cases (get id s)) [
    | inl q ↦ absurd (ground (arith, q))
    | inr (ts, q) ↦ elim (Option-cases (get t ts)) [
      | inl p ↦ absurd (ground (arith, q, p))
      | inr (tx, p) ↦ (
        ground (arith, q, p, d, to_real_id-from_real_id id valid),
        (
          b.send v tx,
          ground (
            arith,
            q,
            p,
            d,
            to_real_id-from_real_id id valid,
            get-insert id id (insert t (b.send v tx) ts) s,
            get-insert t t (b.send v tx) ts,
            id_eq.beq_iff id id,
            string_eq.beq_iff t t,
          ),
          b.newest-send r v tx (ground (arith, q, p)),
        ),
      )
    ]
  ]

  -- A subscriber of a topic of a valid tenant is sent every later message of the topic that can be
  -- written: while its receiver is held, no drop of a guard, no other subscription, no message and no
  -- drop of another receiver takes its sender away, and what a worker publishes is then the newest at
  -- the receiver, as the other side reads it.
  pub client_publish_feed-subscribe_topics :
      (wire : Wire V) (status_text : Status → String) (id : TenantId) (topics : List String)
      (t : String) (r : ℕ) (s s' : Streams b)
      → IsValid id
      → any (λ p. (p.0 == t) && nat_beq r p.1) (subscribe_topics b id topics s).1.1 ≡ true
      → Reaches b wire id t r (subscribe_topics b id topics s).0 s'
      → (v : V) (bytes : List ℕ) → wire.to_vec v ≡ ok bytes
      → ((client_publish_feed b wire status_text id t v s').1 ≡ ok tt)
        × ((tx : b.Sender) × (sender_of b id t (client_publish_feed b wire status_text id t v s').0
              ≡ some tx)
            × (b.newest r tx ≡ some (wire.received v)))
  unfolding client_publish_feed from_real to_real subscribe_topics sender_of
  client_publish_feed-subscribe_topics wire status_text id topics t r s s' valid h run v bytes w =
      let held = reached_keeps id t r wire (subscribe_topics b id topics s).0 s' run (
        ground (
          arith,
          get-insert id id (subscribe_all b topics (or_empty b (get id s))).0 s,
          id_eq.beq_iff id id,
          subscribed b r t topics (or_empty b (get id s)) h,
        )) in
      let (answered, (tx, q, n)) =
        sent wire id t r s' bytes (wire.received v) valid held
          (ground (arith, wire.from_slice-to_vec v bytes w)) in
      (ground (arith, w, answered), (tx, ground (arith, w, q), n))
