-- ===== src/Samples/Registries.antt =====
-- The registries of topics and of sessions on a concrete broker.
use picobroker.Base.{◌≡◌, ◌&&◌, not, ◌==◌, ℕ, arith}
use picobroker.Packets.{ping_req}
use picobroker.Base.Result.{done}
use picobroker.Error.{BrokerError}
use picobroker.Packets.{TopicName}
use picobroker.Session.Registry.Arrivals.{Registers, register_new_session_lem}
use picobroker.Session.Registry.{
  register_new_session, queue_tx_packet, dequeue_rx_packet, dequeue_tx_packet,
}
use picobroker.Session.Registry.Queues.{QueuesTx, queue_tx_packet_lem}
use picobroker.Session.Registry.Dequeues.{
  TakesRx, TakesTx, dequeue_rx_packet_lem, dequeue_tx_packet_lem,
}
use picobroker.Topics.{TopicRegistry, subscribe, unregister_all}
use picobroker.Topics.Unregister.{unregister_all_lem}
use picobroker.Topics.Registry.{IsValid, subscribed, Subscribes, subscribe-Subscribes}
use picobroker.Samples.Data.{config, topics, topics-IsValid, sessions, sessions-IsValid, name_plus}

queue_tx_packet_example : QueuesTx sessions 7 ping_req (queue_tx_packet sessions 7 ping_req)
queue_tx_packet_example = queue_tx_packet_lem sessions 7 ping_req sessions-IsValid

dequeue_rx_packet_example : TakesRx sessions 7 (dequeue_rx_packet sessions 7)
dequeue_rx_packet_example = dequeue_rx_packet_lem sessions 7 sessions-IsValid

dequeue_tx_packet_example : TakesTx sessions 7 (dequeue_tx_packet sessions 7)
dequeue_tx_packet_example = dequeue_tx_packet_lem sessions 7 sessions-IsValid

subscribe_example : Subscribes topics 7 name_plus (subscribe topics 7 name_plus)
subscribe_example = subscribe-Subscribes topics 7 name_plus topics-IsValid

register_new_session_example : Registers sessions 8 60 3 (register_new_session sessions 8 60 3)
register_new_session_example =
    register_new_session_lem sessions 8 60 3 (omega arith) sessions-IsValid

unregister_all_example :
    (r' : TopicRegistry config) × (n : ℕ) × (unregister_all {E = BrokerError} topics 7 ≡ done r' n)
    × IsValid r'
    × ((g : TopicName 4) (j : ℕ) → subscribed r' g j ≡ (subscribed topics g j && not (7 == j)))
unregister_all_example = unregister_all_lem topics 7 topics-IsValid
