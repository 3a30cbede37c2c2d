-- ===== src/Master/WebApi/Socket.antt =====
-- The websocket of a feed, `ws` of src/master/syscall/webapi.rs: heartbeats from both sides, and the
-- messages of the topics of a ticket. What happens to the socket is a list of events.
use Prim.Native.String.{◌++◌}
use template_worker.Prelude.{
  ℕ, ◌+◌, String, Option, none, some, Result, ok, err, List, [], ◌∷◌, ltb, if◌then◌else◌,
}
use template_worker.Geese.Signing.{VerifyError}
use template_worker.Geese.Feedticket.{FeedTicket, message}

-- MAX_MISSED_HB
abbrev pub max_missed_hb : ℕ
max_missed_hb = 3

pub data WsMessage (V : Type 0) : Type 0 where
  hb : WsMessage V
  feed : String → V → WsMessage V

-- What the client sends: a text with its message, if it can be read, another frame, an error of the
-- connection, or the end of it.
pub data Incoming (V : Type 0) : Type 0 where
  text : Result String (WsMessage V) → Incoming V
  other_frame : Incoming V
  broken : String → Incoming V
  gone : Incoming V

-- An interval has passed, or the client sent something, or a topic has a message. What is sent may
-- fail with an error.
pub data WsEvent (V : Type 0) : Type 0 where
  tick : Option String → WsEvent V
  from_client : Incoming V → WsEvent V
  from_topic : String → V → Option String → WsEvent V

-- How `handle_socket` ends
pub data Ended : Type 0 where
  done : Ended
  failed : String → Ended

pub record Socket (V : Type 0) : Type 0 where
  pub missed_heartbeats : ℕ
  pub sent : List (WsMessage V)

abbrev pub opened : {V : Type 0} → Socket V
opened = record { missed_heartbeats = 0; sent = [] }

module _ {V : Type 0} where
  -- `sent` has the latest message first.
  abbrev pub send : WsMessage V → Option String → Socket V → Result Ended (Socket V)
  send m none s = ok (record s { sent = m ∷ s.sent })
  send m (some e) s = err (failed e)

  abbrev counted : Result Ended (Socket V) → Result Ended (Socket V)
  counted (ok s) = ok (record s { missed_heartbeats = s.missed_heartbeats + 1 })
  counted (err e) = err e

  abbrev pub receive : Incoming V → Socket V → Result Ended (Socket V)
  receive (text (ok hb)) s = ok (record s { missed_heartbeats = 0 })
  receive (text (ok (feed topic msg))) s = err (failed "Feed is server-sent")
  receive (text (err e)) s = err (failed e)
  receive other_frame s = ok s
  receive (broken e) s = err (failed e)
  receive gone s = err done

  -- One turn of the loop
  unfoldable pub handle : WsEvent V → Socket V → Result Ended (Socket V)
  handle (tick fault) s =
      if ltb max_missed_hb s.missed_heartbeats
      then err (failed "Client heartbeat timeout")
      else counted (send hb fault s)
  handle (from_client m) s = receive m s
  handle (from_topic topic msg fault) s = send (feed topic msg) fault s

  -- The loop, up to the end of the socket or of the events
  unfoldable pub run : List (WsEvent V) → Socket V → Socket V × Option Ended
  unfolding handle
  run [] s = (s, none)
  run (e ∷ es) s = elim (handle e s) [ ok s' ↦ run es s' | err end ↦ (s, some end) ]

-- The close frame that is sent to the client
unfoldable pub close_frame : Ended → ℕ × String
close_frame done = (1001, "Going away")
close_frame (failed e) = (4000, "Error occured: " ++ e)

-- A ticket that is not verified is answered with the status 401 and a text; else the socket runs for
-- the ticket.
unfoldable pub upgrade : Result VerifyError FeedTicket → Result (ℕ × String) FeedTicket
upgrade (ok t) = ok t
upgrade (err e) = err (401, message e)
