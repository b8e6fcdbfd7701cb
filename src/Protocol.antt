-- ===== src/Protocol.antt =====
-- src/protocol/error.rs, qos.rs and packet_type.rs.
use picobroker.Base.{ℕ, ◌/◌, Bool, ltb, ◌==◌, if◌then◌else◌}
use picobroker.Base.Result.{Outcome, ok, err}

-- The fields of each error, in the source's order.
pub data ProtocolError : Type 0 where
  buffer_too_small : (buffer_size : ℕ) → ProtocolError
  client_id_empty : ProtocolError
  client_id_length_exceeded : (max_length actual_length : ℕ) → ProtocolError
  incomplete_packet : (available : ℕ) → ProtocolError
  invalid_connect_flags : (flags : ℕ) → ProtocolError
  invalid_connect_return_code : (return_code : ℕ) → ProtocolError
  invalid_packet_length : (expected actual : ℕ) → ProtocolError
  invalid_packet_type : (packet_type : ℕ) → ProtocolError
  invalid_protocol_name : ProtocolError
  invalid_session_present_flag : (flag : ℕ) → ProtocolError
  invalid_utf8_string : ProtocolError
  missing_packet_id : ProtocolError
  password_length_exceeded : (max_length actual_length : ℕ) → ProtocolError
  payload_too_large : (max_size actual_size : ℕ) → ProtocolError
  invalid_qos_level : (level : ℕ) → ProtocolError
  topic_empty : ProtocolError
  topic_name_length_exceeded : (max_length actual_length : ℕ) → ProtocolError
  unsupported_protocol_level : (level : ℕ) → ProtocolError
  username_length_exceeded : (max_length actual_length : ℕ) → ProtocolError

pub data QoS : Type 0 where
  at_most_once at_least_once exactly_once : QoS

-- `qos as u8`
unfoldable pub qos_bits : QoS → ℕ
qos_bits at_most_once = 0
qos_bits at_least_once = 1
qos_bits exactly_once = 2

-- `QoS::from_u8`
unfoldable pub qos_from : ℕ → Outcome ProtocolError QoS
qos_from value =
    if value == 0
    then ok at_most_once
    else if value == 1
    then ok at_least_once
    else if value == 2
    then ok exactly_once
    else err (invalid_qos_level value)

-- The derived order goes by the discriminants.
pub qos_lt : QoS → QoS → Bool
unfolding qos_bits
qos_lt a b = ltb (qos_bits a) (qos_bits b)

pub data PacketType : Type 0 where
  reserved : PacketType
  connect : PacketType
  conn_ack : PacketType
  publish : PacketType
  pub_ack : PacketType
  pub_rec : PacketType
  pub_rel : PacketType
  pub_comp : PacketType
  subscribe : PacketType
  sub_ack : PacketType
  unsubscribe : PacketType
  unsub_ack : PacketType
  ping_req : PacketType
  ping_resp : PacketType
  disconnect : PacketType
  reserved2 : PacketType

-- `packet_type as u8`
unfoldable pub type_bits : PacketType → ℕ
type_bits reserved = 0
type_bits connect = 1
type_bits conn_ack = 2
type_bits publish = 3
type_bits pub_ack = 4
type_bits pub_rec = 5
type_bits pub_rel = 6
type_bits pub_comp = 7
type_bits subscribe = 8
type_bits sub_ack = 9
type_bits unsubscribe = 10
type_bits unsub_ack = 11
type_bits ping_req = 12
type_bits ping_resp = 13
type_bits disconnect = 14
type_bits reserved2 = 15

unfoldable pub nibble_type : ℕ → PacketType
nibble_type byte =
    if byte == 0
    then reserved
    else if byte == 1
    then connect
    else if byte == 2
    then conn_ack
    else if byte == 3
    then publish
    else if byte == 4
    then pub_ack
    else if byte == 5
    then pub_rec
    else if byte == 6
    then pub_rel
    else if byte == 7
    then pub_comp
    else if byte == 8
    then subscribe
    else if byte == 9
    then sub_ack
    else if byte == 10
    then unsubscribe
    else if byte == 11
    then unsub_ack
    else if byte == 12
    then ping_req
    else if byte == 13
    then ping_resp
    else if byte == 14
    then disconnect
    else reserved2

-- `From<u8> for PacketType`: a byte of 16 or more goes once round by its high nibble.
unfoldable pub packet_type_from : ℕ → PacketType
unfolding nibble_type
packet_type_from byte = if ltb byte 16 then nibble_type byte else nibble_type (byte / 16)
