-- ===== src/Samples/Data.antt =====
-- The concrete states: a broker for two sessions, with one of them registered and subscribed.
use picobroker.Base.{false, ℕ, refl, none, some, [], ◌∷◌, arith}
use picobroker.Config.{Config}
use picobroker.Heapless
use picobroker.Heapless.{HeaplessVec, as_slice}
use picobroker.Broker.{PicoBroker}
use picobroker.Broker.Invariant
use picobroker.Protocol.{at_least_once}
use picobroker.Packets.{PublishPacket, TopicName, ping_resp, ping_req}
use picobroker.Session.{Session, Queue, connected}
use picobroker.Session.Registry.{SessionRegistry}
use picobroker.Session.Registry.Laws as SessionLaws
use picobroker.Topics.{TopicEntry, TopicRegistry}
use picobroker.Topics.Registry as TopicLaws

abbrev pub config : Config
config = record {
  max_topic_name_length = 4;
  max_payload_size = 4;
  queue_size = 2;
  max_sessions = 2;
  max_topics = 2;
  max_subscribers_per_topic = 2;
}

abbrev pub two_of_three : HeaplessVec ℕ 3
two_of_three = record { length = 2; slots = 5 ∷ 6 ∷ 0 ∷ [] }

pub two_of_three-IsValid : Heapless.IsValid two_of_three
two_of_three-IsValid = record { array = refl; within = omega arith; fits = omega arith }

-- The text "a" as the name of a topic.
abbrev pub name_a : TopicName 4
name_a = record { length = 1; slots = b'a' ∷ 0 ∷ 0 ∷ 0 ∷ [] }

abbrev pub name_plus : TopicName 4
name_plus = record { length = 1; slots = b'+' ∷ 0 ∷ 0 ∷ 0 ∷ [] }

abbrev pub entry_a : TopicEntry config
entry_a = record { topic_name = name_a; subscribers = record { length = 1; slots = 7 ∷ 0 ∷ [] } }

abbrev pub topics : TopicRegistry config
topics = record { topics = record { length = 1; slots = entry_a ∷ entry_a ∷ [] } }

pub topics-IsValid : TopicLaws.IsValid topics
unfolding as_slice
topics-IsValid = record {
  vec = record { array = refl; within = omega arith; fits = omega arith };
  entries = (
    record {
      vec = record { array = refl; within = omega arith; fits = omega arith };
      distinct = (refl, tt);
    },
    refl,
    tt,
  );
  small = omega arith;
}

abbrev pub rx : Queue config
rx = record { length = 1; slots = some ping_req ∷ none ∷ [] }

abbrev pub tx : Queue config
tx = record { length = 1; slots = some ping_resp ∷ none ∷ [] }

abbrev pub session : Session config
session = record {
  session_id = 7;
  client_id = none;
  state = connected;
  keep_alive_secs = 60;
  last_activity = 0;
  rx_queue = rx;
  tx_queue = tx;
}

abbrev pub sessions : SessionRegistry config
sessions = record { sessions = record { length = 1; slots = some session ∷ none ∷ [] } }

pub sessions-IsValid : SessionLaws.IsValid sessions
unfolding as_slice
sessions-IsValid = record {
  vec = record { array = refl; within = omega arith; fits = omega arith };
  slots = (
    record {
      rx = record { array = refl; within = omega arith; fits = omega arith };
      tx = record { array = refl; within = omega arith; fits = omega arith };
      rx_packets = tt;
      tx_packets = tt;
    },
    refl,
    tt,
  );
}

abbrev pub broker : PicoBroker config
broker = record { topics = topics; sessions = sessions }

pub broker-IsValid : Invariant.IsValid broker
broker-IsValid = record { topics = topics-IsValid; sessions = sessions-IsValid }

-- "x" published under "a", with an acknowledgement asked for.
abbrev pub message : PublishPacket 4 4
message = record {
  topic_name = name_a;
  packet_id = some 9;
  payload = record { length = 1; slots = b'x' ∷ 0 ∷ 0 ∷ 0 ∷ [] };
  qos = at_least_once;
  dup = false;
  retain = false;
}
