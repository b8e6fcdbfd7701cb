-- ===== src/Packets.antt =====
-- src/protocol/packets: the packets as data, with client.rs and the topic name of topics.rs.
use picobroker.Base.{ℕ, Bool, Option}
use picobroker.Protocol.{QoS, PacketType}
use picobroker.Protocol
use picobroker.Heapless.{HeaplessVec}
use picobroker.Text.{HeaplessString}

abbrev pub max_client_id_length : ℕ
max_client_id_length = 23

abbrev pub ClientId : Type 0
ClientId = HeaplessString max_client_id_length

abbrev pub TopicName : ℕ → Type 0
TopicName max_topic_name_length = HeaplessString max_topic_name_length

pub data ConnectReturnCode : Type 0 where
  accepted unacceptable_protocol_version identifier_rejected : ConnectReturnCode
  server_unavailable bad_user_name_or_password not_authorized : ConnectReturnCode

-- `connect_flags` is the byte of the newtype `ConnectFlags`.
pub record ConnectPacket (max_topic_name_length max_payload_size : ℕ) : Type 0 where
  pub connect_flags : ℕ
  pub keep_alive : ℕ
  pub client_id : ClientId
  pub will_topic : Option (TopicName max_topic_name_length)
  pub will_payload : Option (HeaplessVec ℕ max_payload_size)
  pub username : Option (HeaplessString max_topic_name_length)
  pub password : Option (HeaplessVec ℕ max_topic_name_length)

pub record ConnAckPacket : Type 0 where
  pub session_present : Bool
  pub return_code : ConnectReturnCode

pub record PublishPacket (max_topic_name_length max_payload_size : ℕ) : Type 0 where
  pub topic_name : TopicName max_topic_name_length
  pub packet_id : Option ℕ
  pub payload : HeaplessVec ℕ max_payload_size
  pub qos : QoS
  pub dup : Bool
  pub retain : Bool

pub record SubscribePacket (max_topic_name_length : ℕ) : Type 0 where
  pub packet_id : ℕ
  pub topic_filter : TopicName max_topic_name_length
  pub requested_qos : QoS

pub record SubAckPacket : Type 0 where
  pub packet_id : ℕ
  pub granted_qos : QoS

pub record UnsubscribePacket (max_topic_name_length : ℕ) : Type 0 where
  pub packet_id : ℕ
  pub topic_filter : TopicName max_topic_name_length

-- `PubAckPacket` and the four others that hold a packet id only hold it as the constructor's
-- argument; the three empty packets have none.
pub data Packet (max_topic_name_length max_payload_size : ℕ) : Type 0 where
  connect :
      ConnectPacket max_topic_name_length max_payload_size
      → Packet max_topic_name_length max_payload_size
  conn_ack : ConnAckPacket → Packet max_topic_name_length max_payload_size
  publish :
      PublishPacket max_topic_name_length max_payload_size
      → Packet max_topic_name_length max_payload_size
  pub_ack : (packet_id : ℕ) → Packet max_topic_name_length max_payload_size
  pub_rec : (packet_id : ℕ) → Packet max_topic_name_length max_payload_size
  pub_rel : (packet_id : ℕ) → Packet max_topic_name_length max_payload_size
  pub_comp : (packet_id : ℕ) → Packet max_topic_name_length max_payload_size
  subscribe : SubscribePacket max_topic_name_length → Packet max_topic_name_length max_payload_size
  sub_ack : SubAckPacket → Packet max_topic_name_length max_payload_size
  unsubscribe :
      UnsubscribePacket max_topic_name_length → Packet max_topic_name_length max_payload_size
  unsub_ack : (packet_id : ℕ) → Packet max_topic_name_length max_payload_size
  ping_req : Packet max_topic_name_length max_payload_size
  ping_resp : Packet max_topic_name_length max_payload_size
  disconnect : Packet max_topic_name_length max_payload_size

module _ {L P : ℕ} where
  -- `PacketTypeDynamic::packet_type`
  pub packet_type : Packet L P → PacketType
  packet_type (connect _) = Protocol.connect
  packet_type (conn_ack _) = Protocol.conn_ack
  packet_type (publish _) = Protocol.publish
  packet_type (pub_ack _) = Protocol.pub_ack
  packet_type (pub_rec _) = Protocol.pub_rec
  packet_type (pub_rel _) = Protocol.pub_rel
  packet_type (pub_comp _) = Protocol.pub_comp
  packet_type (subscribe _) = Protocol.subscribe
  packet_type (sub_ack _) = Protocol.sub_ack
  packet_type (unsubscribe _) = Protocol.unsubscribe
  packet_type (unsub_ack _) = Protocol.unsub_ack
  packet_type ping_req = Protocol.ping_req
  packet_type ping_resp = Protocol.ping_resp
  packet_type disconnect = Protocol.disconnect
