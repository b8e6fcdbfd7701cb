-- ===== src/Codec/Header.antt =====
-- src/protocol/packets/mod.rs: the checks and the first byte that the codecs share.
use picobroker.Base.{ℕ, ◌+◌, ◌-◌, ◌*◌, ◌/◌, ◌%◌, ltb, ◌==◌, if◌then◌else◌, not}
use picobroker.Base.Result.{Outcome, panic, check}
use picobroker.Protocol.{
  ProtocolError, PacketType, type_bits, packet_type_from, buffer_too_small, invalid_packet_type,
  invalid_packet_length,
}
use picobroker.Wire.{variable_length_length}

-- `header_first_byte`
unfoldable pub header_byte : PacketType → ℕ → ℕ
header_byte t flags = type_bits t * 16 + flags % 16

unfoldable pub validate_packet_type : PacketType → ℕ → Outcome ProtocolError (Unit {0})
validate_packet_type expected header_first_byte =
    let type_byte = header_first_byte / 16 in
    check (not (type_bits (packet_type_from type_byte) == type_bits expected))
      (invalid_packet_type type_byte)

unfoldable pub validate_buffer_size : ℕ → ℕ → Outcome ProtocolError (Unit {0})
validate_buffer_size packet_size buffer_size =
    check (ltb buffer_size packet_size) (buffer_too_small buffer_size)

-- `PACKET_SIZE - int_length - 1` overflows where the length is written in too many bytes.
unfoldable pub validate_remaining_length : ℕ → ℕ → Outcome ProtocolError (Unit {0})
validate_remaining_length packet_size remaining_length =
    let int_length = variable_length_length remaining_length in
    if ltb packet_size (int_length + 1)
    then panic
    else check (not (remaining_length == packet_size - int_length - 1))
        (invalid_packet_length packet_size (remaining_length + int_length + 1))
