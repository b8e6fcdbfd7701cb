-- ===== src/Codec/Subscribe.antt =====
-- src/protocol/packets/subscribe.rs and unsubscribe.rs
pub mod Filters
pub mod RoundTrip
use picobroker.Base.{ℕ, ◌+◌, ◌-◌, ◌*◌, ◌/◌, ◌%◌, List, ltb, leb, ◌==◌, length, not}
use picobroker.Base.Result.{Outcome, ok, ◌>>=◌, ◌>>◌, check, or_err}
use picobroker.Packets.{SubscribePacket, UnsubscribePacket, TopicName}
use picobroker.Protocol.{
  ProtocolError, PacketType, qos_bits, qos_from, subscribe, unsubscribe, type_bits,
  buffer_too_small, incomplete_packet, invalid_packet_length, invalid_packet_type,
  missing_packet_id, topic_empty, topic_name_length_exceeded,
}
use picobroker.Text
use picobroker.Text.{as_str}
use picobroker.Wire.{
  byte_at, slice_from, store, store_u16, read_u16, read_string, write_string, read_variable_length,
  write_length_at,
}

-- The packet id and the topic filter, with which both bodies begin.
pub encode_filter :
    {L : ℕ} → PacketType → ℕ → TopicName L → ℕ → List ℕ → Outcome ProtocolError (List ℕ × ℕ)
encode_filter t packet_id topic_filter remaining_length buffer = do
  check (leb (length buffer) 0) (buffer_too_small (length buffer))
  buffer1 ← store buffer 0 (type_bits t * 16 + 2)
  (buffer2, offset2) ← write_length_at remaining_length buffer1 1
  check (ltb (length buffer2) (offset2 + 2)) (buffer_too_small (length buffer2))
  buffer3 ← store_u16 buffer2 offset2 packet_id
  write_string (as_str topic_filter) buffer3 (offset2 + 2)

-- Also the remaining length, the offset where it counts from, and the offset behind the filter.
pub decode_filter :
    {L : ℕ} → PacketType → List ℕ → Outcome ProtocolError (ℕ × TopicName L × ℕ × ℕ × ℕ)
decode_filter {L} t bytes = do
  check (leb (length bytes) 0) (incomplete_packet (length bytes))
  header_byte ← byte_at bytes 0
  let packet_type = header_byte / 16 % 16
  check (not (packet_type == type_bits t)) (invalid_packet_type packet_type)
  tail ← slice_from bytes 1
  (remaining_length, var_len_bytes) ← read_variable_length tail
  let start_offset = 1 + var_len_bytes
  check (ltb (length bytes) (start_offset + 2)) (incomplete_packet (length bytes))
  packet_id ← read_u16 bytes start_offset
  check (packet_id == 0) missing_packet_id
  (topic_filter, offset) ← read_string bytes (start_offset + 2)
  check (length topic_filter == 0) topic_empty
  topic_name ←
      or_err (Text.try_from topic_filter) (topic_name_length_exceeded L (length topic_filter))
  ok (packet_id, topic_name, remaining_length, start_offset, offset)

module _ {L : ℕ} where
  pub encode_subscribe : SubscribePacket L → List ℕ → Outcome ProtocolError (ℕ × List ℕ)
  unfolding encode_filter
  encode_subscribe p buffer = do
    (buffer1, offset) ←
        encode_filter subscribe p.packet_id p.topic_filter (2 + 2 + Text.len p.topic_filter + 1)
          buffer
    check (leb (length buffer1) offset) (buffer_too_small (length buffer1))
    buffer2 ← store buffer1 offset (qos_bits p.requested_qos)
    ok (offset + 1, buffer2)

  pub decode_subscribe : List ℕ → Outcome ProtocolError (SubscribePacket L)
  unfolding decode_filter
  decode_subscribe bytes = do
    (packet_id, topic_name, remaining_length, start_offset, offset) ← decode_filter subscribe bytes
    check (ltb (length bytes) (offset + 1)) (incomplete_packet (length bytes))
    requested_qos_byte ← byte_at bytes offset
    requested_qos ← qos_from requested_qos_byte
    let actual_consumed = offset + 1 - start_offset
    check (not (actual_consumed == remaining_length))
        (invalid_packet_length remaining_length actual_consumed)
    ok (record { packet_id = packet_id; topic_filter = topic_name; requested_qos = requested_qos })

  pub encode_unsubscribe : UnsubscribePacket L → List ℕ → Outcome ProtocolError (ℕ × List ℕ)
  unfolding encode_filter
  encode_unsubscribe p buffer = do
    (buffer1, offset) ←
        encode_filter unsubscribe p.packet_id p.topic_filter (2 + 2 + Text.len p.topic_filter)
          buffer
    ok (offset, buffer1)

  pub decode_unsubscribe : List ℕ → Outcome ProtocolError (UnsubscribePacket L)
  unfolding decode_filter
  decode_unsubscribe bytes = do
    (packet_id, topic_name, remaining_length, start_offset, offset) ←
        decode_filter unsubscribe bytes
    let actual_consumed = offset - start_offset
    check (not (actual_consumed == remaining_length))
        (invalid_packet_length remaining_length actual_consumed)
    ok (record { packet_id = packet_id; topic_filter = topic_name })
