-- ===== src/Codec/Fixed.antt =====
-- The packets of fixed size: connack.rs, suback.rs, puback.rs, pubrec.rs, pubrel.rs, pubcomp.rs,
-- unsuback.rs, pingreq.rs, pingresp.rs and disconnect.rs under src/protocol/packets.
pub mod RoundTrip
use picobroker.Base.{ℕ, Bool, true, false, List, ltb, ◌==◌, if◌then◌else◌, length, not}
use picobroker.Base.Result.{Outcome, ok, err, ◌>>=◌, ◌>>◌, check}
use picobroker.Packets.{
  ConnAckPacket, ConnectReturnCode, accepted, unacceptable_protocol_version, identifier_rejected,
  server_unavailable, bad_user_name_or_password, not_authorized, SubAckPacket,
}
use picobroker.Protocol.{
  ProtocolError, PacketType, conn_ack, pub_ack, pub_rec, pub_rel, pub_comp, sub_ack, unsub_ack,
  ping_req, ping_resp, disconnect, qos_bits, qos_from, buffer_too_small, incomplete_packet,
  invalid_packet_length, invalid_connect_return_code, invalid_session_present_flag,
}
use picobroker.Wire.{byte_at, slice_from, store, store_u16, read_u16, read_variable_length}
use picobroker.Codec.Header.{
  header_byte, validate_packet_type, validate_buffer_size, validate_remaining_length,
}

-- The bodies that the packets with an id, and those with nothing, have in common. The flags are
-- the packet's `PACKET_FLAGS`: 0b0010 for PubRel, 0 for all others.
pub encode_id : PacketType → ℕ → ℕ → List ℕ → Outcome ProtocolError (ℕ × List ℕ)
encode_id t flags packet_id buffer = do
  validate_buffer_size 4 (length buffer)
  buffer0 ← store buffer 0 (header_byte t flags)
  buffer1 ← store buffer0 1 2
  buffer2 ← store_u16 buffer1 2 packet_id
  ok (4, buffer2)

pub decode_id : PacketType → List ℕ → Outcome ProtocolError ℕ
decode_id t bytes = do
  validate_buffer_size 4 (length bytes)
  header ← byte_at bytes 0
  validate_packet_type t header
  tail ← slice_from bytes 1
  (remaining_length, _) ← read_variable_length tail
  validate_remaining_length 4 remaining_length
  read_u16 bytes 2

pub encode_empty : PacketType → List ℕ → Outcome ProtocolError (ℕ × List ℕ)
encode_empty t buffer = do
  validate_buffer_size 2 (length buffer)
  buffer0 ← store buffer 0 (header_byte t 0)
  buffer1 ← store buffer0 1 0
  ok (2, buffer1)

pub decode_empty : PacketType → List ℕ → Outcome ProtocolError (Unit {0})
decode_empty t bytes = do
  validate_buffer_size 2 (length bytes)
  header ← byte_at bytes 0
  validate_packet_type t header
  tail ← slice_from bytes 1
  (remaining_length, _) ← read_variable_length tail
  validate_remaining_length 2 remaining_length

unfoldable pub encode_pub_ack : ℕ → List ℕ → Outcome ProtocolError (ℕ × List ℕ)
unfolding encode_id
encode_pub_ack = encode_id pub_ack 0

unfoldable pub decode_pub_ack : List ℕ → Outcome ProtocolError ℕ
unfolding decode_id
decode_pub_ack = decode_id pub_ack

unfoldable pub encode_pub_rec : ℕ → List ℕ → Outcome ProtocolError (ℕ × List ℕ)
unfolding encode_id
encode_pub_rec = encode_id pub_rec 0

unfoldable pub decode_pub_rec : List ℕ → Outcome ProtocolError ℕ
unfolding decode_id
decode_pub_rec = decode_id pub_rec

unfoldable pub encode_pub_rel : ℕ → List ℕ → Outcome ProtocolError (ℕ × List ℕ)
unfolding encode_id
encode_pub_rel = encode_id pub_rel 2

unfoldable pub decode_pub_rel : List ℕ → Outcome ProtocolError ℕ
unfolding decode_id
decode_pub_rel = decode_id pub_rel

unfoldable pub encode_pub_comp : ℕ → List ℕ → Outcome ProtocolError (ℕ × List ℕ)
unfolding encode_id
encode_pub_comp = encode_id pub_comp 0

unfoldable pub decode_pub_comp : List ℕ → Outcome ProtocolError ℕ
unfolding decode_id
decode_pub_comp = decode_id pub_comp

unfoldable pub encode_unsub_ack : ℕ → List ℕ → Outcome ProtocolError (ℕ × List ℕ)
unfolding encode_id
encode_unsub_ack = encode_id unsub_ack 0

unfoldable pub decode_unsub_ack : List ℕ → Outcome ProtocolError ℕ
unfolding decode_id
decode_unsub_ack = decode_id unsub_ack

unfoldable pub encode_ping_req : List ℕ → Outcome ProtocolError (ℕ × List ℕ)
unfolding encode_empty
encode_ping_req = encode_empty ping_req

unfoldable pub decode_ping_req : List ℕ → Outcome ProtocolError (Unit {0})
unfolding decode_empty
decode_ping_req = decode_empty ping_req

unfoldable pub encode_ping_resp : List ℕ → Outcome ProtocolError (ℕ × List ℕ)
unfolding encode_empty
encode_ping_resp = encode_empty ping_resp

unfoldable pub decode_ping_resp : List ℕ → Outcome ProtocolError (Unit {0})
unfolding decode_empty
decode_ping_resp = decode_empty ping_resp

unfoldable pub encode_disconnect : List ℕ → Outcome ProtocolError (ℕ × List ℕ)
unfolding encode_empty
encode_disconnect = encode_empty disconnect

unfoldable pub decode_disconnect : List ℕ → Outcome ProtocolError (Unit {0})
unfolding decode_empty
decode_disconnect = decode_empty disconnect

-- `return_code as u8`, and `TryFrom<u8>`
pub code_bits : ConnectReturnCode → ℕ
code_bits accepted = 0
code_bits unacceptable_protocol_version = 1
code_bits identifier_rejected = 2
code_bits server_unavailable = 3
code_bits bad_user_name_or_password = 4
code_bits not_authorized = 5

pub code_from : ℕ → Outcome ProtocolError ConnectReturnCode
code_from code =
    if code == 0
    then ok accepted
    else if code == 1
    then ok unacceptable_protocol_version
    else if code == 2
    then ok identifier_rejected
    else if code == 3
    then ok server_unavailable
    else if code == 4
    then ok bad_user_name_or_password
    else if code == 5
    then ok not_authorized
    else err (invalid_connect_return_code code)

session_present_from : ℕ → Outcome ProtocolError Bool
session_present_from flag =
    if flag == 0
    then ok false
    else if flag == 1
    then ok true
    else err (invalid_session_present_flag flag)

unfoldable pub encode_conn_ack : ConnAckPacket → List ℕ → Outcome ProtocolError (ℕ × List ℕ)
unfolding code_bits
encode_conn_ack p buffer = do
  validate_buffer_size 4 (length buffer)
  buffer0 ← store buffer 0 (header_byte conn_ack 0)
  buffer1 ← store buffer0 1 2
  buffer2 ← store buffer1 2 (if p.session_present then 1 else 0)
  buffer3 ← store buffer2 3 (code_bits p.return_code)
  ok (4, buffer3)

unfoldable pub decode_conn_ack : List ℕ → Outcome ProtocolError ConnAckPacket
unfolding session_present_from code_from
decode_conn_ack bytes = do
  validate_buffer_size 4 (length bytes)
  header ← byte_at bytes 0
  validate_packet_type conn_ack header
  tail ← slice_from bytes 1
  (remaining_length, _) ← read_variable_length tail
  validate_remaining_length 4 remaining_length
  session_present_byte ← byte_at bytes 2
  session_present ← session_present_from session_present_byte
  code ← byte_at bytes 3
  return_code ← code_from code
  ok (record { session_present = session_present; return_code = return_code })

unfoldable pub encode_sub_ack : SubAckPacket → List ℕ → Outcome ProtocolError (ℕ × List ℕ)
encode_sub_ack p buffer = do
  check (ltb (length buffer) 5) (buffer_too_small (length buffer))
  buffer0 ← store buffer 0 (header_byte sub_ack 0)
  buffer1 ← store buffer0 1 3
  buffer2 ← store_u16 buffer1 2 p.packet_id
  buffer3 ← store buffer2 4 (qos_bits p.granted_qos)
  ok (5, buffer3)

unfoldable pub decode_sub_ack : List ℕ → Outcome ProtocolError SubAckPacket
decode_sub_ack bytes = do
  check (ltb (length bytes) 5) (incomplete_packet (length bytes))
  header ← byte_at bytes 0
  validate_packet_type sub_ack header
  tail ← slice_from bytes 1
  (remaining_length, _) ← read_variable_length tail
  check (not (remaining_length == 3)) (invalid_packet_length 3 remaining_length)
  packet_id ← read_u16 bytes 2
  qos_value ← byte_at bytes 4
  granted_qos ← qos_from qos_value
  ok (record { packet_id = packet_id; granted_qos = granted_qos })
