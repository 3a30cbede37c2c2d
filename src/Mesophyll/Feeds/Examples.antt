-- ===== src/Mesophyll/Feeds/Examples.antt =====
-- Two subscribers of one topic of a user, of which one leaves.
use template_worker.Prelude.{
  ℕ, ◌≡◌, ◌+◌, refl, true, String, Option, none, some, Result, ok, err, List, [], ◌∷◌, arith,
  nat_beq, nat_eq, string_eq, if◌then◌else◌, ◌&&◌, ◌==◌,
}
use template_worker.Prelude.Dict.{get, insert, remove}
use template_worker.Prelude.Rows.{any, delete}
use template_worker.Worker.Tenant.{user, id_eq}
use template_worker.Worker.Tenant.Examples.{unary}
use template_worker.Mesophyll.Proto.{Status, Wire, internal, permission_denied, invalid_argument}
use template_worker.Mesophyll.Feeds.{
  Broadcast, TopicGuard, Streams, subscribe_all, subscribe_topics, drop_topics, forget_all,
  is_unheard, sender_of, heard, release, client_publish_feed, pool_subscribe_topics, Reaches, here,
  further, releases, drops,
}
use template_worker.Mesophyll.Feeds.Laws.{sender_of-drop_topics}
use template_worker.Mesophyll.Feeds.Delivery.{client_publish_feed-subscribe_topics}

abbrev text_of : Status → String
text_of (internal t) = t
text_of (permission_denied t) = t
text_of (invalid_argument t) = t

abbrev write_one : ℕ → Result String (List ℕ)
write_one n = ok (n ∷ [])

abbrev first_of : List ℕ → Result String ℕ
first_of [] = err "end of input"
first_of (n ∷ ns) = ok n

first_of-written : (a : ℕ) (b : List ℕ) → write_one a ≡ ok b → first_of b ≡ ok a
first_of-written a b h = ground arith

abbrev one_byte : Wire ℕ
one_byte = record {
  to_vec = write_one;
  from_slice = first_of;
  received = λ n. n;
  from_slice-to_vec = first_of-written;
}

-- A sender that remembers, for each receiver, the last message it was sent
record Log : Type 0 where
  fresh : ℕ
  who : List ℕ
  last : ℕ → Option ℕ

abbrev log_send : ℕ → Log → Log
log_send v s = record s { last = λ r. if any (nat_beq r) s.who then some v else s.last r }

log_send-newest :
    (r v : ℕ) (s : Log) → any (nat_beq r) s.who ≡ true → (log_send v s).last r ≡ some v
log_send-newest r v s h = ground arith

abbrev log_broadcast : Broadcast ℕ
log_broadcast = record {
  Sender = Log;
  channel = record { fresh = 0; who = []; last = λ r. none };
  subscribe = λ s. (record s { fresh = s.fresh + 1; who = s.fresh ∷ s.who }, s.fresh);
  send = log_send;
  release = λ r s. record s { who = delete (nat_beq r) s.who };
  receivers = λ s. s.who;
  newest = λ r s. s.last r;
  receivers-subscribe = λ s. refl;
  receivers-release = λ r s. refl;
  receivers-send = λ v s. refl;
  newest-send = log_send-newest;
}

abbrev news : List String
news = "news" ∷ []

abbrev first_guard : TopicGuard
first_guard = record { id = user 2; topics = news }

-- The first subscriber has receiver 0, the second one has receiver 1.
abbrev one : Streams log_broadcast
one = (subscribe_topics log_broadcast (user 2) news []).0

abbrev two : Streams log_broadcast
two = (subscribe_topics log_broadcast (user 2) news one).0

abbrev left : Streams log_broadcast
left = drop_topics log_broadcast first_guard (release log_broadcast (user 2) "news" 0 two)

abbrev empty : Streams log_broadcast
empty = drop_topics log_broadcast first_guard (release log_broadcast (user 2) "news" 1 left)

no_one_left : empty ≡ []
unfolding subscribe_topics subscribe_all release drop_topics forget_all is_unheard get insert remove
    any delete
no_one_left = refl

leaves : Reaches log_broadcast one_byte (user 2) "news" 1 two left
leaves =
    further (further (here two) (releases (user 2) "news" 0 two refl))
      (drops first_guard (release log_broadcast (user 2) "news" 0 two))

second_receiver :
    any
      (λ p. (p.0 == "news") && nat_beq 1 p.1)
      (subscribe_topics log_broadcast (user 2) news one).1.1
    ≡ true
unfolding subscribe_topics subscribe_all get insert any
second_receiver = refl

client_publish_feed-subscribe_topics_example :
    ((client_publish_feed log_broadcast one_byte text_of (user 2) "news" 5 left).1 ≡ ok tt)
    × ((tx : Log) × (sender_of log_broadcast
            (user 2)
            "news"
            (client_publish_feed log_broadcast one_byte text_of (user 2) "news" 5 left).0
          ≡ some tx)
        × (tx.last 1 ≡ some 5))
client_publish_feed-subscribe_topics_example =
    client_publish_feed-subscribe_topics log_broadcast one_byte text_of (user 2) news "news" 1 one
      left (omega arith) second_receiver leaves 5 (5 ∷ []) refl

sender_of-drop_topics_example :
    sender_of log_broadcast (user 2) "news" (drop_topics log_broadcast first_guard two)
    ≡ heard log_broadcast (sender_of log_broadcast (user 2) "news" two)
unfolding any
sender_of-drop_topics_example = sender_of-drop_topics log_broadcast first_guard (user 2) "news" two

unconnected :
    (pool_subscribe_topics log_broadcast unary 2 [] (user 2) news one).1
    ≡ err "Failed to get worker"
unfolding pool_subscribe_topics get
unconnected = refl
