-- ===== src/Codec/Publish.antt =====
-- src/protocol/packets/publish.rs
pub mod Bytes
pub mod Encoding
pub mod Decoding
pub mod RoundTrip
use picobroker.Base.{
  ℕ, ◌+◌, ◌-◌, ◌*◌, ◌/◌, ◌%◌, Bool, true, false, Option, none, some, List, ltb, leb, ◌==◌,
  if◌then◌else◌, length, not,
}
use picobroker.Base.Result.{Outcome, ok, err, panic, ◌>>=◌, ◌>>◌, check, or_err, done, fail, crash}
use picobroker.Heapless
use picobroker.Heapless.{HeaplessVec, as_slice}
use picobroker.Packets.{PublishPacket}
use picobroker.Protocol.{
  ProtocolError, QoS, qos_bits, qos_from, publish, type_bits, buffer_too_small, incomplete_packet,
  invalid_packet_length, invalid_packet_type, missing_packet_id, payload_too_large, topic_empty,
  topic_name_length_exceeded,
}
use picobroker.Text
use picobroker.Text.{as_str}
use picobroker.Wire.{
  byte_at, slice, slice_from, store, store_all, store_u16, read_u16, read_string, write_string,
  read_variable_length, write_length_at,
}

pub record PublishFlags : Type 0 where
  pub dup : Bool
  pub qos : QoS
  pub retain : Bool

abbrev bit : Bool → ℕ
bit true = 1
bit false = 0

pub to_nibble : PublishFlags → ℕ
to_nibble f = bit f.dup * 8 + qos_bits f.qos * 2 + bit f.retain

pub from_nibble : ℕ → Outcome ProtocolError PublishFlags
from_nibble nibble = do
  qos ← qos_from (nibble / 2 % 4)
  ok (record { dup = not (nibble / 8 % 2 == 0); qos = qos; retain = not (nibble % 2 == 0) })

pub publish_header_byte : PublishFlags → ℕ
unfolding to_nibble
publish_header_byte f = type_bits publish * 16 + to_nibble f % 16

-- `HeaplessVec::new()` and `extend_from_slice`, with its error mapped.
unfoldable pub vec_from : {N : ℕ} → List ℕ → ProtocolError → Outcome ProtocolError (HeaplessVec ℕ N)
vec_from {N} bytes e = elim (Heapless.extend_from_slice (Heapless.new {N = N} 0) bytes) [
  | done v _ ↦ ok v
  | fail _ _ ↦ err e
  | crash ↦ panic
]

-- `ok_or(e)?`
abbrev ok_or {ℓ} : {A : Type ℓ} → Option A → ProtocolError → Outcome ProtocolError A
ok_or none e = err e
ok_or (some a) e = ok a

read_packet_id : QoS → List ℕ → ℕ → Outcome ProtocolError (Option ℕ × ℕ)
read_packet_id qos bytes offset = if qos_bits qos == 0 then ok (none, offset) else (do
  check (ltb (length bytes) (offset + 2)) (incomplete_packet (length bytes))
  pid ← read_u16 bytes offset
  check (pid == 0) missing_packet_id
  ok (some pid, offset + 2))

module _ {L P : ℕ} where
  pub publish_flags : PublishPacket L P → PublishFlags
  publish_flags p = record { dup = p.dup; qos = p.qos; retain = p.retain }

  -- The packet id, which a packet of QoS 0 does not have.
  write_packet_id : PublishPacket L P → List ℕ → ℕ → Outcome ProtocolError (List ℕ × ℕ)
  write_packet_id p buffer offset = if qos_bits p.qos == 0 then ok (buffer, offset) else (do
    check (ltb (length buffer) (offset + 2)) (buffer_too_small (length buffer))
    pid ← ok_or p.packet_id missing_packet_id
    buffer' ← store_u16 buffer offset pid
    ok (buffer', offset + 2))

  pub encode : PublishPacket L P → List ℕ → Outcome ProtocolError (ℕ × List ℕ)
  unfolding write_packet_id publish_flags publish_header_byte
  encode p buffer =
      let payload = as_slice p.payload in
      let remaining_length =
        2 + Text.len p.topic_name + (if qos_bits p.qos == 0 then 0 else 2) + length payload in
      do
        check (leb (length buffer) 0) (buffer_too_small (length buffer))
        buffer1 ← store buffer 0 (publish_header_byte (publish_flags p))
        (buffer2, offset2) ← write_length_at remaining_length buffer1 1
        (buffer3, offset3) ← write_string (as_str p.topic_name) buffer2 offset2
        (buffer4, offset4) ← write_packet_id p buffer3 offset3
        check (ltb (length buffer4) (offset4 + length payload)) (buffer_too_small (length buffer4))
        buffer5 ← store_all buffer4 offset4 payload
        ok (offset4 + length payload, buffer5)

  pub decode : List ℕ → Outcome ProtocolError (PublishPacket L P)
  unfolding read_packet_id from_nibble
  decode bytes = do
    check (leb (length bytes) 0) (incomplete_packet (length bytes))
    header_byte ← byte_at bytes 0
    let packet_type = header_byte / 16 % 16
    check (not (packet_type == type_bits publish)) (invalid_packet_type packet_type)
    flags ← from_nibble (header_byte % 16)
    tail ← slice_from bytes 1
    (remaining_length, var_len_bytes) ← read_variable_length tail
    let start_offset = 1 + var_len_bytes
    (topic_str, offset1) ← read_string bytes start_offset
    check (length topic_str == 0) topic_empty
    topic_name ← or_err (Text.try_from topic_str) (topic_name_length_exceeded L (length topic_str))
    (packet_id, offset2) ← read_packet_id flags.qos bytes offset1
    let payload_end = start_offset + remaining_length
    check (ltb (length bytes) payload_end) (incomplete_packet (length bytes))
    payload_bytes ← slice bytes offset2 payload_end
    payload ← vec_from payload_bytes (payload_too_large P (length payload_bytes))
    let actual_consumed = offset2 - start_offset + length payload_bytes
    check (not (actual_consumed == remaining_length))
        (invalid_packet_length remaining_length actual_consumed)
    ok (record {
      topic_name = topic_name;
      packet_id = packet_id;
      payload = payload;
      qos = flags.qos;
      dup = flags.dup;
      retain = flags.retain;
    })
