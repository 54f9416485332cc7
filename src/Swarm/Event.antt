-- ===== src/Swarm/Event.antt =====
-- The events and messages (swarm/core/event.py, swarm/core/message.py).
use autonomous_procurement_s.Prelude.Json.{Fields, Value, null, text, end, field}
use autonomous_procurement_s.Prelude.{
  String, Bool, false, Option, none, some, if◌then◌else◌, ◌==◌, string_eq, nat_eq,
}

module _ (N : Type 0) where
  pub record Message : Type 0 where
    pub sender : String
    pub receiver : Option String
    pub intent : String
    pub payload : Fields N
    pub metadata : Fields N
    pub correlation_id : Option String

  pub record Event : Type 0 where
    pub id : String
    pub type : String
    pub source : String
    pub payload : Fields N
    pub timestamp : String
    pub correlation_id : Option String
    pub message : Option Message
    pub replayed : Bool

abbrev pub any_event : String
any_event = "*"

-- `source or message.sender`
source_or : Option String → String → String
source_or none sender = sender
source_or (some s) sender = if s == "" then sender else s

module _ {N : Type 0} where
  text_or_null : Option String → Value N
  text_or_null none = null
  text_or_null (some s) = text s

  -- `Event.from_message`; the new id and the time are arguments.
  pub from_message : String → String → Message N → Option String → Event N
  unfolding source_or text_or_null
  from_message id now m source = record {
    id = id;
    type = "message";
    source = source_or source m.sender;
    payload = field "intent" (text m.intent) (field "receiver" (text_or_null m.receiver) end);
    timestamp = now;
    correlation_id = m.correlation_id;
    message = some m;
    replayed = false;
  }
