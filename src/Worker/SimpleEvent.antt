-- ===== src/Worker/SimpleEvent.antt =====
-- `SimpleEvent` of src/worker/workerdispatch.rs: an event on its way to a worker.
use template_worker.Prelude.{ℕ, String, Option, List}

pub data SimpleEventData (V : Type 0) : Type 0 where
  khronos_value : V → SimpleEventData V
  json_string : String → SimpleEventData V
  feed_ticket_request : List String → SimpleEventData V

pub record SimpleEvent (V : Type 0) : Type 0 where
  pub name : String
  pub author : Option ℕ
  pub payload : SimpleEventData V

module _ {V : Type 0} where
  abbrev pub new_khronos_value : String → Option ℕ → V → SimpleEvent V
  new_khronos_value name author v = record {
    name = name;
    author = author;
    payload = khronos_value v;
  }

  abbrev pub new_json_string : String → Option ℕ → String → SimpleEvent V
  new_json_string name author t = record { name = name; author = author; payload = json_string t }

  abbrev pub new_feed_ticket_request : Option ℕ → List String → SimpleEvent V
  new_feed_ticket_request author topics = record {
    name = "FeedTicketRequest";
    author = author;
    payload = feed_ticket_request topics;
  }
