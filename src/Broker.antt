-- ===== src/Broker.antt =====
-- src/broker.rs
pub mod Loop
pub mod Invariant
pub mod Deliveries
pub mod Publishing
pub mod Removal
pub mod Reachable
use picobroker.Base.{
  ℕ, zero, suc, ◌+◌, Bool, true, false, not, ◌&&◌, Option, none, some, List, [], ◌∷◌, if◌then◌else◌,
}
use picobroker.Base.Result.{Step, done, fail, crash, map_step, then_step}
use picobroker.Config.{Config}
use picobroker.Error.{BrokerError}
use picobroker.Heapless
use picobroker.Heapless.{HeaplessVec, as_slice}
use picobroker.Packets.{
  ConnectPacket, ConnAckPacket, PublishPacket, SubscribePacket, accepted, connect, conn_ack,
  publish, pub_ack, pub_rec, pub_rel, pub_comp, subscribe, sub_ack, unsubscribe, unsub_ack,
  ping_req, ping_resp, disconnect,
}
use picobroker.Protocol.{at_most_once, qos_lt}
use picobroker.Session.{Packet, ExpirationInfo}
use picobroker.Session.Registry
use picobroker.Session.Registry.{SessionRegistry, somes}
use picobroker.Text
use picobroker.Topics
use picobroker.Topics.{TopicRegistry}

pub record PicoBroker (c : Config) : Type 0 where
  pub topics : TopicRegistry c
  pub sessions : SessionRegistry c

-- `ConnAckPacket::default()`
abbrev pub default_connack : ConnAckPacket
default_connack = record { session_present = false; return_code = accepted }

abbrev pub is_some {ℓ} : {A : Type ℓ} → Option A → Bool
is_some none = false
is_some (some a) = true

module _ {c : Config} where
  -- A call on one of the two registries.
  abbrev pub on_sessions :
      {A : Type 0}
      → PicoBroker c
      → Step (SessionRegistry c) BrokerError A
      → Step (PicoBroker c) BrokerError A
  on_sessions b m = map_step (λ r. record b { sessions = r }) (λ e. e) m

  abbrev pub on_topics :
      {A : Type 0}
      → PicoBroker c
      → Step (TopicRegistry c) BrokerError A
      → Step (PicoBroker c) BrokerError A
  on_topics b m = map_step (λ r. record b { topics = r }) (λ e. e) m

  pub new : PicoBroker c
  new = record { topics = Topics.default_registry; sessions = Registry.default_registry }

  unfoldable pub register_new_session :
      PicoBroker c → ℕ → ℕ → ℕ → Step (PicoBroker c) BrokerError (Unit {0})
  register_new_session b session_id keep_alive_secs current_time =
      on_sessions b
        (Registry.register_new_session b.sessions session_id keep_alive_secs current_time)

  unfoldable pub mark_session_disconnected :
      PicoBroker c → ℕ → Step (PicoBroker c) BrokerError (Unit {0})
  mark_session_disconnected b session_id =
      on_sessions b (Registry.mark_disconnected b.sessions session_id)

  pub remove_session : PicoBroker c → ℕ → Step (PicoBroker c) BrokerError Bool
  remove_session b session_id =
      then_step (on_topics b (Topics.unregister_all b.topics session_id))
        (λ b' _. on_sessions b' (Registry.remove_session b'.sessions session_id))

  pub get_all_sessions : PicoBroker c → List (Option ℕ)
  get_all_sessions b = Registry.get_all_sessions b.sessions

  unfoldable pub get_expired_sessions : PicoBroker c → ℕ → List (Option ExpirationInfo)
  get_expired_sessions b current_time = Registry.get_expired_sessions b.sessions current_time

  unfoldable pub get_disconnected_sessions : PicoBroker c → List (Option ℕ)
  get_disconnected_sessions b = Registry.get_disconnected_sessions b.sessions

  unfoldable pub queue_packet_received_from_client :
      PicoBroker c → ℕ → Packet c → ℕ → Step (PicoBroker c) BrokerError (Unit {0})
  queue_packet_received_from_client b session_id packet current_time =
      then_step
        (on_sessions b (Registry.update_session_activity b.sessions session_id current_time))
        (λ b' _. on_sessions b' (Registry.queue_rx_packet b'.sessions session_id packet))

  unfoldable pub dequeue_packet_to_send_to_client :
      PicoBroker c → ℕ → Step (PicoBroker c) BrokerError (Option (Packet c))
  dequeue_packet_to_send_to_client b session_id =
      on_sessions b (Registry.dequeue_tx_packet b.sessions session_id)

  -- `self.sessions.queue_tx_packet(session_id, packet)`
  abbrev pub send : PicoBroker c → ℕ → Packet c → Step (PicoBroker c) BrokerError (Unit {0})
  send b session_id packet = on_sessions b (Registry.queue_tx_packet b.sessions session_id packet)

  pub handle_connect :
      PicoBroker c
      → ℕ
      → ConnectPacket c.max_topic_name_length c.max_payload_size
      → Step (PicoBroker c) BrokerError (Unit {0})
  handle_connect b session_id p =
      then_step
        (if Text.is_empty p.client_id
          then done b tt
          else on_sessions b (Registry.update_client_id b.sessions session_id p.client_id))
        (λ b1 _.
          then_step
            (on_sessions b1 (Registry.update_keep_alive b1.sessions session_id p.keep_alive))
            (λ b2 _.
              then_step (on_sessions b2 (Registry.mark_connected b2.sessions session_id))
                (λ b3 _. send b3 session_id (conn_ack default_connack))))

  -- The loop over the subscribers.
  pub deliver :
      PicoBroker c
      → PublishPacket c.max_topic_name_length c.max_payload_size
      → List ℕ
      → Step (PicoBroker c) BrokerError (Unit {0})
  deliver b p [] = done b tt
  deliver b p (subscriber_id ∷ rest) = elim (send b subscriber_id (publish p)) [
    | done b' _ ↦ deliver b' p rest
    | fail b' e ↦ fail b' e
    | crash ↦ crash
  ]

  -- The acknowledgement at the end of `handle_publish`.
  pub acknowledge :
      PicoBroker c
      → ℕ
      → PublishPacket c.max_topic_name_length c.max_payload_size
      → Option ℕ
      → Step (PicoBroker c) BrokerError (Unit {0})
  acknowledge b session_id p none = done b tt
  acknowledge b session_id p (some packet_id) =
      if qos_lt at_most_once p.qos then send b session_id (pub_ack packet_id) else done b tt

  pub handle_publish :
      PicoBroker c
      → ℕ
      → PublishPacket c.max_topic_name_length c.max_payload_size
      → Step (PicoBroker c) BrokerError (Unit {0})
  unfolding deliver acknowledge
  handle_publish b session_id p =
      elim (Topics.get_subscribers {E = BrokerError} b.topics p.topic_name) [
        | crash ↦ crash
        | fail _ e ↦ fail b e
        | done subscribers _ ↦
            then_step (deliver b p (as_slice subscribers))
              (λ b' _. acknowledge b' session_id p p.packet_id)
      ]

  pub handle_subscribe :
      PicoBroker c
      → ℕ
      → SubscribePacket c.max_topic_name_length
      → Step (PicoBroker c) BrokerError (Unit {0})
  handle_subscribe b session_id p =
      then_step (on_topics b (Topics.subscribe b.topics session_id p.topic_filter)) (λ b' _.
        send b' session_id
          (sub_ack (record { packet_id = p.packet_id; granted_qos = p.requested_qos })))

  pub handle_pingreq : PicoBroker c → ℕ → Step (PicoBroker c) BrokerError (Unit {0})
  handle_pingreq b session_id = send b session_id ping_resp

  pub handle_disconnect : PicoBroker c → ℕ → Step (PicoBroker c) BrokerError (Unit {0})
  handle_disconnect b session_id = mark_session_disconnected b session_id

  -- The `match` of `process_all_session_packets`.
  pub handle_packet : PicoBroker c → ℕ → Packet c → Step (PicoBroker c) BrokerError (Unit {0})
  handle_packet b session_id (connect p) = handle_connect b session_id p
  handle_packet b session_id (conn_ack _) = done b tt
  handle_packet b session_id (publish p) = handle_publish b session_id p
  handle_packet b session_id (pub_ack _) = done b tt
  handle_packet b session_id (pub_rec _) = done b tt
  handle_packet b session_id (pub_rel _) = done b tt
  handle_packet b session_id (pub_comp _) = done b tt
  handle_packet b session_id (subscribe p) = handle_subscribe b session_id p
  handle_packet b session_id (sub_ack _) = done b tt
  handle_packet b session_id (unsubscribe _) = done b tt
  handle_packet b session_id (unsub_ack _) = done b tt
  handle_packet b session_id ping_req = handle_pingreq b session_id
  handle_packet b session_id ping_resp = done b tt
  handle_packet b session_id disconnect = handle_disconnect b session_id
