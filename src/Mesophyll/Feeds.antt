-- ===== src/Mesophyll/Feeds.antt =====
-- The feeds of src/mesophyll/server.rs: `subscribe_topics`, `publish_feed` and the drop of a
-- `TopicGuard`, with `subscribe_topics` of src/master/workerpool.rs and `publish_feed` of
-- src/mesophyll/client.rs.
pub mod Laws
pub mod Receivers
pub mod Delivery
pub mod Examples
use template_worker.Prelude.{
  ℕ, ◌≡◌, Bool, true, false, ◌&&◌, String, Option, none, some, Result, ok, err, List, [], ◌∷◌,
  or_else, map_err, nat_beq, nat_eq, string_eq, if◌then◌else◌, ◌==◌,
}
use template_worker.Prelude.Dict.{Dict, get, insert, remove}
use template_worker.Prelude.Rows.{any, delete}
use template_worker.Worker.Tenant.{TenantId, Snowflakes, worker_id, id_eq}
use template_worker.Mesophyll.Proto.{
  Status, invalid_argument, Wire, PbId, to_real_id, to_real, from_real_id, from_real,
}

-- Senders of tokio::sync::broadcast, with the receivers that listen to them, known by a number:
-- `channel` has none, `subscribe` adds one, `release` is the drop of one, and what is sent arrives
-- at each of them, where `newest` is the last message that was sent to it.
pub record Broadcast (V : Type 0) : Type 1 where
  pub Sender : Type 0
  pub channel : Sender
  pub subscribe : Sender → Sender × ℕ
  pub send : V → Sender → Sender
  pub release : ℕ → Sender → Sender
  pub receivers : Sender → List ℕ
  pub newest : ℕ → Sender → Option V
  pub receivers-subscribe : (s : Sender) → receivers (subscribe s).0 ≡ (subscribe s).1 ∷ receivers s
  pub receivers-release :
      (r : ℕ) (s : Sender) → receivers (release r s) ≡ delete (nat_beq r) (receivers s)
  pub receivers-send : (v : V) (s : Sender) → receivers (send v s) ≡ receivers s
  pub newest-send :
      (r : ℕ) (v : V) (s : Sender)
      → any (nat_beq r) (receivers s) ≡ true
      → newest r (send v s) ≡ some v

-- `PublishFeedMessage`
pub record PublishFeedMessage : Type 0 where
  pub id : Option PbId
  pub topic : String
  pub payload : Option (List ℕ)

-- `TopicGuard`
pub record TopicGuard : Type 0 where
  pub id : TenantId
  pub topics : List String

module _ {V : Type 0} (b : Broadcast V) where
  -- `attached_streams`
  abbrev pub Topics : Type 0
  Topics = Dict String b.Sender

  abbrev pub Streams : Type 0
  Streams = Dict TenantId Topics

  -- `receiver_count() == 0`
  unfoldable pub is_unheard : b.Sender → Bool
  is_unheard s = elim (b.receivers s) [ [] ↦ true | r ∷ rs ↦ false ]

  abbrev pub or_channel : Option b.Sender → b.Sender
  or_channel none = b.channel
  or_channel (some s) = s

  abbrev pub or_empty : Option Topics → Topics
  or_empty none = []
  or_empty (some ts) = ts

  -- The loop over the topics
  unfoldable pub subscribe_all : List String → Topics → Topics × List (String × ℕ)
  unfolding get insert
  subscribe_all [] ts = (ts, [])
  subscribe_all (t ∷ topics) ts =
      let tx = b.subscribe (or_channel (get t ts)) in
      let rest = subscribe_all topics (insert t tx.0 ts) in (rest.0, (t, tx.1) ∷ rest.1)

  -- `WorkerConn::subscribe_topics`
  unfoldable pub subscribe_topics :
      TenantId → List String → Streams → Streams × (TopicGuard × List (String × ℕ))
  unfolding get insert
  subscribe_topics id topics s =
      let out = subscribe_all topics (or_empty (get id s)) in
      (insert id out.0 s, (record { id = id; topics = topics }, out.1))

  -- `publish_feed`: the payload is read only if somebody has subscribed to the topic.
  unfoldable pub publish_feed :
      Wire V → PublishFeedMessage → Streams → Streams × Result Status (Unit {0})
  unfolding get insert to_real
  publish_feed wire req s = elim req.id [
    | none ↦ (s, err (invalid_argument "Missing ID"))
    | some pb_id ↦ elim (get (to_real_id pb_id) s) [
      | none ↦ (s, ok tt)
      | some ts ↦ elim (get req.topic ts) [
        | none ↦ (s, ok tt)
        | some tx ↦ elim req.payload [
          | none ↦ (s, err (invalid_argument "Missing payload"))
          | some bytes ↦ elim (to_real wire bytes) [
            | err e ↦ (s, err e)
            | ok v ↦ (insert (to_real_id pb_id) (insert req.topic (b.send v tx) ts) s, ok tt)
          ]
        ]
      ]
    ]
  ]

  abbrev pub feed_message : TenantId → String → List ℕ → PublishFeedMessage
  feed_message id topic payload = record {
    id = some (from_real_id id);
    topic = topic;
    payload = some payload;
  }

  -- `MesophyllClient::publish_feed`, while the connection stands
  unfoldable pub client_publish_feed :
      Wire V
      → (Status → String)
      → TenantId
      → String
      → V
      → Streams
      → Streams × Result String (Unit {0})
  unfolding from_real publish_feed
  client_publish_feed wire status_text id topic msg s = elim (from_real wire msg) [
    | err e ↦ (s, err (status_text e))
    | ok payload ↦
        let out = publish_feed wire (feed_message id topic payload) s in
        (out.0, map_err status_text out.1)
  ]

  -- `remove_if(topic, |_, tx| tx.receiver_count() == 0)`
  abbrev pub forget : String → Topics → Topics
  forget t ts = elim (get t ts) [ none ↦ ts | some tx ↦ if is_unheard tx then remove t ts else ts ]

  unfoldable pub forget_all : List String → Topics → Topics
  unfolding get remove is_unheard
  forget_all [] ts = ts
  forget_all (t ∷ topics) ts = forget_all topics (forget t ts)

  abbrev put_back : TenantId → Topics → Streams → Streams
  put_back id [] s = remove id s
  put_back id (t ∷ ts) s = insert id (t ∷ ts) s

  -- `TopicGuard::drop`
  unfoldable pub drop_topics : TopicGuard → Streams → Streams
  unfolding get remove insert forget_all
  drop_topics g s = elim (get g.id s) [
    | none ↦ s
    | some ts ↦ put_back g.id (forget_all g.topics ts) s
  ]

  -- The sender of a topic
  unfoldable pub sender_of : TenantId → String → Streams → Option b.Sender
  unfolding get
  sender_of id t s = elim (get id s) [ none ↦ none | some ts ↦ get t ts ]

  -- A sender that somebody listens to
  abbrev pub heard : Option b.Sender → Option b.Sender
  heard none = none
  heard (some tx) = if is_unheard tx then none else some tx

  abbrev pub is_receiver : ℕ → Option b.Sender → Bool
  is_receiver r none = false
  is_receiver r (some tx) = any (nat_beq r) (b.receivers tx)

  abbrev release_at : TenantId → String → ℕ → Option Topics → Streams → Streams
  release_at id t r none s = s
  release_at id t r (some ts) s = elim (get t ts) [
    | none ↦ s
    | some tx ↦ insert id (insert t (b.release r tx) ts) s
  ]

  -- The receiver of a topic is dropped, as at the end of a socket.
  unfoldable pub release : TenantId → String → ℕ → Streams → Streams
  unfolding get insert
  release id t r s = release_at id t r (get id s) s

  -- What happens to the feeds while receiver `r` of a topic is held: subscriptions, messages, the drop
  -- of guards and of other receivers.
  pub data Step (wire : Wire V) (id : TenantId) (t : String) (r : ℕ)
      : Streams → Streams → Type 0 where
    subscribes :
        (j : TenantId) (topics : List String) (s : Streams)
        → Step wire id t r s (subscribe_topics j topics s).0
    publishes :
        (req : PublishFeedMessage) (s : Streams) → Step wire id t r s (publish_feed wire req s).0
    drops : (g : TopicGuard) (s : Streams) → Step wire id t r s (drop_topics g s)
    releases :
        (j : TenantId) (u : String) (k : ℕ) (s : Streams)
        → ((j == id) && (u == t) && nat_beq k r) ≡ false
        → Step wire id t r s (release j u k s)

  pub data Reaches (wire : Wire V) (id : TenantId) (t : String) (r : ℕ)
      : Streams → Streams → Type 0 where
    here : (s : Streams) → Reaches wire id t r s s
    further :
        {p q s : Streams} → Reaches wire id t r p q → Step wire id t r q s → Reaches wire id t r p s

  module _ (sf : Snowflakes) (pool_size : ℕ) where
    -- `WorkerPool::subscribe_topics`, where `connections` are the workers that are connected: the
    -- streams are those of the server, whichever connection is used.
    unfoldable pub pool_subscribe_topics :
        Dict ℕ String
        → TenantId
        → List String
        → Streams
        → Streams × Result String (TopicGuard × List (String × ℕ))
    unfolding subscribe_topics get
    pool_subscribe_topics conns id topics s = elim (get (worker_id sf id pool_size) conns) [
      | none ↦ (s, err "Failed to get worker")
      | some endpoint ↦ let out = subscribe_topics id topics s in (out.0, ok out.1)
    ]
