-- ===== src/Samples/Brokers.antt =====
-- The broker on a concrete state, with one session that is subscribed to what is published.
use picobroker.Base.{
  List, Bool, some, none, not, ◌&&◌, if◌then◌else◌, ◌==◌, [], ◌∷◌, arith, ℕ, ◌≡◌, ◌<◌, true,
}
use picobroker.Base.Result.{After, done}
use picobroker.Error.{BrokerError}
use picobroker.Heapless
use picobroker.Heapless.{HeaplessVec, as_slice}
use picobroker.Packets.{publish}
use picobroker.Text.{as_str}
use picobroker.Topics.{contains, get_subscribers}
use picobroker.Topics.Subscribers.{Distinct}
use picobroker.Topics.Delivery.{interested, get_subscribers_lem}
use picobroker.Broker.{PicoBroker, new, handle_packet, handle_publish, remove_session}
use picobroker.Broker.Reachable.{
  Call, Fits, register, receive, process, send_next, run, run-IsValid,
}
use picobroker.Broker.Removal.{remove_session-forgets}
use picobroker.Session.Registry.{find_session}
use picobroker.Topics.Registry.{subscribed}
use picobroker.Packets.{TopicName, ping_req}
use picobroker.Broker.Invariant.{IsValid, Serves, handle_packet-Serves}
use picobroker.Broker.Publishing.{Publishes, handle_publish-Publishes}
use picobroker.Broker.Loop.{process_all_session_packets}
use picobroker.Broker.Loop.Processing.{process_all_session_packets-IsValid}
use picobroker.Samples.Data.{
  config, broker, broker-IsValid, message, topics, topics-IsValid, name_a,
}

handle_publish_example : Publishes broker 7 message (handle_publish broker 7 message)
handle_publish_example = handle_publish-Publishes broker 7 message broker-IsValid

process_all_session_packets_example : After IsValid (process_all_session_packets broker)
process_all_session_packets_example = process_all_session_packets-IsValid broker broker-IsValid

handle_packet_example : After (Serves broker) (handle_packet broker 7 (publish message))
handle_packet_example = handle_packet-Serves broker 7 (publish message) broker-IsValid

get_subscribers_example :
    (v : HeaplessVec ℕ 2) × (get_subscribers {E = BrokerError} topics name_a ≡ done v tt)
    × Heapless.IsValid v
    × Distinct (as_slice v)
    × ((j : ℕ)
        → contains j (as_slice v) ≡ true
        → interested (as_str name_a) (as_slice topics.topics) j ≡ true)
    × (v.length < 2
        → (j : ℕ) → contains j (as_slice v) ≡ interested (as_str name_a) (as_slice topics.topics) j)
get_subscribers_example = get_subscribers_lem topics name_a topics-IsValid

-- A session registers, pings, and is answered.
abbrev ping_calls : List (Call config)
ping_calls = register 7 60 0 ∷ receive 7 ping_req 1 ∷ process ∷ send_next 7 ∷ []

config-Fits : Fits config
config-Fits = record {
  sessions = omega arith;
  queue = omega arith;
  topics = omega arith;
  subscribers = omega arith;
}

run_example : (b' : PicoBroker config) × (run ping_calls new ≡ some b') × IsValid b'
run_example = run-IsValid ping_calls config-Fits

remove_session_example :
    (b' : PicoBroker config) × (was : Bool) × (remove_session broker 7 ≡ done b' was)
    × IsValid b'
    × ((g : TopicName 4) (j : ℕ)
        → subscribed b'.topics g j ≡ (subscribed topics g j && not (7 == j)))
    × ((j : ℕ)
        → find_session b'.sessions j ≡ (if 7 == j then none else find_session broker.sessions j))
remove_session_example = remove_session-forgets broker 7 broker-IsValid
