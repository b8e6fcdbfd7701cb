-- ===== src/Codec/Connect.antt =====
-- src/protocol/packets/connect.rs
use Prim.Native.Nat.{bit_and, bit_or, bit_xor}
use picobroker.Base.{
  ℕ, ◌+◌, ◌-◌, Bool, ◌&&◌, Option, none, some, List, [], ◌∷◌, ltb, leb, ◌==◌, if◌then◌else◌, length,
  not,
}
use picobroker.Base.Result.{Outcome, ok, ◌>>=◌, ◌>>◌, check, or_err}
use picobroker.Heapless.{HeaplessVec, as_slice}
use picobroker.Packets.{ConnectPacket, ClientId, TopicName}
use picobroker.Protocol.{
  ProtocolError, connect, incomplete_packet, invalid_packet_length, invalid_protocol_name,
  unsupported_protocol_level, invalid_connect_flags, client_id_empty, client_id_length_exceeded,
  topic_empty, topic_name_length_exceeded, payload_too_large, username_length_exceeded,
  password_length_exceeded,
}
use picobroker.Text
use picobroker.Text.{HeaplessString, as_str, bytes_eq}
use picobroker.Wire.{
  byte_at, slice_from, store, store_u16, read_u16, read_string, write_string, read_binary,
  write_binary, read_variable_length, write_length_at,
}
use picobroker.Codec.Header.{header_byte, validate_packet_type}
use picobroker.Codec.Publish.{vec_from}

-- "MQTT"
abbrev pub mqtt_protocol_name : List ℕ
mqtt_protocol_name = 0x4d ∷ 0x51 ∷ 0x54 ∷ 0x54 ∷ []

abbrev pub mqtt_3_1_1_protocol_level : ℕ
mqtt_3_1_1_protocol_level = 4

-- The constants of `ConnectFlags`, and the test for one bit of the byte.
abbrev pub reserved : ℕ
reserved = 1

abbrev pub clean_session : ℕ
clean_session = 2

abbrev pub will_flag : ℕ
will_flag = 4

abbrev pub password_flag : ℕ
password_flag = 64

abbrev pub username_flag : ℕ
username_flag = 128

abbrev pub contains : ℕ → ℕ → Bool
contains flags other = bit_and flags other == other

pub insert : ℕ → ℕ → ℕ
insert flags other = bit_or flags other

-- `!other` of a u8 is 255 - other.
pub remove : ℕ → ℕ → ℕ
remove flags other = bit_and flags (255 - other)

pub toggle : ℕ → ℕ → ℕ
toggle flags other = bit_xor flags other

-- An optional field, and what it adds to the remaining length.
abbrev optional_length : Option (List ℕ) → ℕ
optional_length none = 0
optional_length (some field) = 2 + length field

abbrev write_optional :
    (List ℕ → List ℕ → ℕ → Outcome ProtocolError (List ℕ × ℕ))
    → Option (List ℕ)
    → List ℕ
    → ℕ
    → Outcome ProtocolError (List ℕ × ℕ)
write_optional write none buffer offset = ok (buffer, offset)
write_optional write (some field) buffer offset = write field buffer offset

abbrev text_of : {N : ℕ} → Option (HeaplessString N) → Option (List ℕ)
text_of none = none
text_of (some s) = some (as_str s)

abbrev bytes_of : {N : ℕ} → Option (HeaplessVec ℕ N) → Option (List ℕ)
bytes_of none = none
bytes_of (some v) = some (as_slice v)

-- A text field that is read into a string, where its flag is set.
read_username : {L : ℕ} → Bool → List ℕ → ℕ → Outcome ProtocolError (Option (HeaplessString L) × ℕ)
read_username {L} flag bytes offset = if not flag then ok (none, offset) else (do
  (username_str, offset') ← read_string bytes offset
  username ← or_err (Text.try_from username_str) (username_length_exceeded L (length username_str))
  ok (some username, offset'))

read_password : {L : ℕ} → Bool → List ℕ → ℕ → Outcome ProtocolError (Option (HeaplessVec ℕ L) × ℕ)
read_password {L} flag bytes offset = if not flag then ok (none, offset) else (do
  (password_bytes, offset') ← read_binary bytes offset
  password ← vec_from password_bytes (password_length_exceeded L (length password_bytes))
  ok (some password, offset'))

read_will :
    {L P : ℕ}
    → Bool
    → List ℕ
    → ℕ
    → Outcome ProtocolError (Option (TopicName L) × Option (HeaplessVec ℕ P) × ℕ)
read_will {L} {P} flag bytes offset = if not flag then ok (none, none, offset) else (do
  (will_topic_str, offset1) ← read_string bytes offset
  check (length will_topic_str == 0) topic_empty
  will_topic ←
      or_err (Text.try_from will_topic_str) (topic_name_length_exceeded L (length will_topic_str))
  (will_payload_bytes, offset2) ← read_binary bytes offset1
  check (ltb P (length will_payload_bytes)) (payload_too_large P (length will_payload_bytes))
  will_payload ← vec_from will_payload_bytes (payload_too_large P (length will_payload_bytes))
  ok (some will_topic, some will_payload, offset2))

-- A client id has its own limit, but the error reports that of topic names.
-- `decode`, from the flags on: the flags, the keep-alive time and the client id.
decode_client :
    (max_topic_name_length : ℕ) → List ℕ → ℕ → Outcome ProtocolError (ℕ × ℕ × ClientId × ℕ)
decode_client max_topic_name_length bytes offset = do
  check (leb (length bytes) offset) (incomplete_packet (length bytes))
  connect_flags ← byte_at bytes offset
  check (contains connect_flags reserved) (invalid_connect_flags connect_flags)
  check (ltb (length bytes) (offset + 3)) (incomplete_packet (length bytes))
  keep_alive ← read_u16 bytes (offset + 1)
  (client_id_str, offset1) ← read_string bytes (offset + 3)
  check (length client_id_str == 0 && not (contains connect_flags clean_session)) client_id_empty
  client_id ←
      or_err (Text.try_from client_id_str)
        (client_id_length_exceeded max_topic_name_length (length client_id_str))
  ok (connect_flags, keep_alive, client_id, offset1)

module _ {L P : ℕ} where
  pub remaining_length : ConnectPacket L P → ℕ
  remaining_length p =
      2
      + length mqtt_protocol_name
      + 1
      + 1
      + 2
      + (2 + Text.len p.client_id)
      + optional_length (text_of p.will_topic)
      + optional_length (bytes_of p.will_payload)
      + username_length p.username
      + optional_length (bytes_of p.password)
    where
      username_length : Option (HeaplessString L) → ℕ
      username_length none = 0
      username_length (some s) = 2 + Text.len s

  -- The first write of `encode` is not guarded by a test of the buffer's size.
  pub encode : ConnectPacket L P → List ℕ → Outcome ProtocolError (ℕ × List ℕ)
  unfolding remaining_length
  encode p buffer = do
    buffer1 ← store buffer 0 (header_byte connect 0)
    (buffer2, offset2) ← write_length_at (remaining_length p) buffer1 1
    (buffer3, offset3) ← write_string mqtt_protocol_name buffer2 offset2
    buffer4 ← store buffer3 offset3 mqtt_3_1_1_protocol_level
    buffer5 ← store buffer4 (offset3 + 1) p.connect_flags
    buffer6 ← store_u16 buffer5 (offset3 + 2) p.keep_alive
    (buffer7, offset7) ← write_string (as_str p.client_id) buffer6 (offset3 + 4)
    (buffer8, offset8) ← write_optional write_string (text_of p.will_topic) buffer7 offset7
    (buffer9, offset9) ← write_optional write_binary (bytes_of p.will_payload) buffer8 offset8
    (buffer10, offset10) ← write_optional write_string (text_of p.username) buffer9 offset9
    (buffer11, offset11) ← write_optional write_binary (bytes_of p.password) buffer10 offset10
    ok (offset11, buffer11)

  -- `bytes[0]` is not guarded by a test for an empty slice.
  pub decode : List ℕ → Outcome ProtocolError (ConnectPacket L P)
  unfolding decode_client read_will read_username read_password
  decode bytes = do
    header ← byte_at bytes 0
    validate_packet_type connect header
    tail ← slice_from bytes 1
    (remaining, int_length) ← read_variable_length tail
    let offset = 1 + int_length
    check (leb (length bytes) offset) (incomplete_packet (length bytes))
    (protocol_name, offset1) ← read_string bytes offset
    check (not (bytes_eq protocol_name mqtt_protocol_name)) invalid_protocol_name
    check (leb (length bytes) offset1) (incomplete_packet (length bytes))
    protocol_level ← byte_at bytes offset1
    check (not (protocol_level == mqtt_3_1_1_protocol_level))
        (unsupported_protocol_level protocol_level)
    (connect_flags, keep_alive, client_id, offset2) ← decode_client L bytes (offset1 + 1)
    (will_topic, will_payload, offset3) ← read_will (contains connect_flags will_flag) bytes offset2
    (username, offset4) ← read_username (contains connect_flags username_flag) bytes offset3
    (password, offset5) ← read_password (contains connect_flags password_flag) bytes offset4
    let actual_payload_size = offset5 - 1 - int_length
    check (not (actual_payload_size == remaining))
        (invalid_packet_length remaining actual_payload_size)
    ok (record {
      connect_flags = connect_flags;
      keep_alive = keep_alive;
      client_id = client_id;
      will_topic = will_topic;
      will_payload = will_payload;
      username = username;
      password = password;
    })
