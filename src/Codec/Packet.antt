-- ===== src/Codec/Packet.antt =====
-- src/protocol/packets/mod.rs: `PacketEncoder` of `Packet`.
use picobroker.Base.{ℕ, ◌/◌, List}
use picobroker.Base.Result.{Outcome, ok, err, ◌>>=◌}
use picobroker.Packets.{Packet}
use picobroker.Protocol.{ProtocolError, PacketType, packet_type_from, invalid_packet_type}
use picobroker.Protocol
use picobroker.Wire.{byte_at}
use picobroker.Codec.Fixed
use picobroker.Codec.Publish
use picobroker.Codec.Subscribe
use picobroker.Codec.Connect

module _ {L P : ℕ} where
  unfoldable pub encode : Packet L P → List ℕ → Outcome ProtocolError (ℕ × List ℕ)
  encode (Packet.connect p) buffer = Connect.encode p buffer
  encode (Packet.conn_ack p) buffer = Fixed.encode_conn_ack p buffer
  encode (Packet.publish p) buffer = Publish.encode p buffer
  encode (Packet.pub_ack id) buffer = Fixed.encode_pub_ack id buffer
  encode (Packet.pub_rec id) buffer = Fixed.encode_pub_rec id buffer
  encode (Packet.pub_rel id) buffer = Fixed.encode_pub_rel id buffer
  encode (Packet.pub_comp id) buffer = Fixed.encode_pub_comp id buffer
  encode (Packet.subscribe p) buffer = Subscribe.encode_subscribe p buffer
  encode (Packet.sub_ack p) buffer = Fixed.encode_sub_ack p buffer
  encode (Packet.unsubscribe p) buffer = Subscribe.encode_unsubscribe p buffer
  encode (Packet.unsub_ack id) buffer = Fixed.encode_unsub_ack id buffer
  encode Packet.ping_req buffer = Fixed.encode_ping_req buffer
  encode Packet.ping_resp buffer = Fixed.encode_ping_resp buffer
  encode Packet.disconnect buffer = Fixed.encode_disconnect buffer

  -- The `match` on the packet type.
  unfoldable pub decode_as : PacketType → ℕ → List ℕ → Outcome ProtocolError (Packet L P)
  decode_as Protocol.reserved type_byte bytes = err (invalid_packet_type type_byte)
  decode_as Protocol.connect _ bytes = do p ← Connect.decode bytes; ok (Packet.connect p)
  decode_as Protocol.conn_ack _ bytes = do p ← Fixed.decode_conn_ack bytes; ok (Packet.conn_ack p)
  decode_as Protocol.publish _ bytes = do p ← Publish.decode bytes; ok (Packet.publish p)
  decode_as Protocol.pub_ack _ bytes = do id ← Fixed.decode_pub_ack bytes; ok (Packet.pub_ack id)
  decode_as Protocol.pub_rec _ bytes = do id ← Fixed.decode_pub_rec bytes; ok (Packet.pub_rec id)
  decode_as Protocol.pub_rel _ bytes = do id ← Fixed.decode_pub_rel bytes; ok (Packet.pub_rel id)
  decode_as Protocol.pub_comp _ bytes = do id ← Fixed.decode_pub_comp bytes; ok (Packet.pub_comp id)
  decode_as Protocol.subscribe _ bytes = do
    p ← Subscribe.decode_subscribe bytes
    ok (Packet.subscribe p)
  decode_as Protocol.sub_ack _ bytes = do p ← Fixed.decode_sub_ack bytes; ok (Packet.sub_ack p)
  decode_as Protocol.unsubscribe _ bytes = do
    p ← Subscribe.decode_unsubscribe bytes
    ok (Packet.unsubscribe p)
  decode_as Protocol.unsub_ack _ bytes = do
    id ← Fixed.decode_unsub_ack bytes
    ok (Packet.unsub_ack id)
  decode_as Protocol.ping_req _ bytes = do _ ← Fixed.decode_ping_req bytes; ok Packet.ping_req
  decode_as Protocol.ping_resp _ bytes = do _ ← Fixed.decode_ping_resp bytes; ok Packet.ping_resp
  decode_as Protocol.disconnect _ bytes = do _ ← Fixed.decode_disconnect bytes; ok Packet.disconnect
  decode_as Protocol.reserved2 type_byte bytes = err (invalid_packet_type type_byte)

  unfoldable pub decode : List ℕ → Outcome ProtocolError (Packet L P)
  unfolding decode_as
  decode bytes = do
    first ← byte_at bytes 0
    let type_byte = first / 16
    decode_as (packet_type_from type_byte) type_byte bytes
