-- ===== src/Codec/Fixed/RoundTrip.antt =====
-- The packets of fixed size that carry an id: written and read back.
use picobroker.Base.{ℕ, suc, ◌<◌, ◌/◌, ◌%◌, ◌≡◌, refl, ap, List, ◌∷◌, ge→ltb, lt→ltb, length, arith}
use picobroker.Base.Result.{Outcome, ok}
use picobroker.Protocol.{
  ProtocolError, PacketType, type_bits, packet_type_from, nibble_type, pub_ack, pub_rec, pub_rel,
  pub_comp, unsub_ack,
}
use picobroker.Wire.{
  byte_at, slice_from, store, store_u16, read_u16, read_variable_length, read_length_loop,
  variable_length_length,
}
use picobroker.Codec.Header.{
  header_byte, validate_packet_type, validate_buffer_size, validate_remaining_length,
}
use picobroker.Codec.Fixed.{
  encode_id, decode_id, encode_pub_ack, decode_pub_ack, encode_pub_rec, decode_pub_rec,
  encode_pub_rel, decode_pub_rel, encode_pub_comp, decode_pub_comp, encode_unsub_ack,
  decode_unsub_ack,
}

-- The bytes an encoder has written, and what is decoded from them.
abbrev pub DecodesTo :
    (List ℕ → Outcome ProtocolError ℕ)
    → ℕ
    → ℕ
    → List ℕ
    → Outcome ProtocolError (ℕ × List ℕ)
    → Type 0
DecodesTo decode packet_id first_byte rest m =
    let buffer : List ℕ = first_byte ∷ 2 ∷ packet_id / 256 ∷ packet_id % 256 ∷ rest in
    (m ≡ ok (4, buffer)) × (decode buffer ≡ ok packet_id)

module _ (packet_id a b d e : ℕ) (rest : List ℕ) where
  decode-encode_id :
      (t : PacketType) (flags : ℕ)
      → validate_packet_type t (header_byte t flags) ≡ ok tt
      → packet_id < 65536
      → DecodesTo
          (decode_id t)
          packet_id
          (header_byte t flags)
          rest
          (encode_id t flags packet_id (a ∷ b ∷ d ∷ e ∷ rest))
  unfolding encode_id decode_id validate_buffer_size validate_remaining_length byte_at slice_from
      store store_u16 read_u16 read_variable_length variable_length_length read_length_loop
  decode-encode_id t flags valid h =
      let n = suc (suc (suc (suc (length rest)))) in
      let high : packet_id / 256 % 256 ≡ packet_id / 256 = omega arith in
      rw
        (
          ge→ltb n 4 (omega arith),
          lt→ltb 0 n (omega arith),
          lt→ltb 1 n (omega arith),
          lt→ltb 2 n (omega arith),
          lt→ltb 3 n (omega arith),
        )
        (rw high refl, rw (valid, slice_from, ge→ltb n 1 (omega arith)) (ap ok (omega arith)))

  -- A PubAck, PubRec, PubRel, PubComp or UnsubAck with a packet id below 65536 that is encoded
  -- into a buffer of at least 4 bytes takes 4 bytes: the first byte of its packet type and
  -- flags, which is 0x40, 0x50, 0x62, 0x70 or 0xB0, then 2, then the packet id with the high
  -- byte first. The rest of the buffer is left, and decoding the buffer gives the packet id
  -- back.
  pub decode-encode_acks :
      packet_id < 65536
      → DecodesTo decode_pub_ack packet_id 0x40 rest
          (encode_pub_ack packet_id (a ∷ b ∷ d ∷ e ∷ rest))
        × DecodesTo decode_pub_rec packet_id 0x50 rest
            (encode_pub_rec packet_id (a ∷ b ∷ d ∷ e ∷ rest))
        × DecodesTo decode_pub_rel packet_id 0x62 rest
            (encode_pub_rel packet_id (a ∷ b ∷ d ∷ e ∷ rest))
        × DecodesTo decode_pub_comp packet_id 0x70 rest
            (encode_pub_comp packet_id (a ∷ b ∷ d ∷ e ∷ rest))
        × DecodesTo decode_unsub_ack packet_id 0xB0 rest
            (encode_unsub_ack packet_id (a ∷ b ∷ d ∷ e ∷ rest))
  unfolding encode_pub_ack decode_pub_ack encode_pub_rec decode_pub_rec encode_pub_rel
      decode_pub_rel encode_pub_comp decode_pub_comp encode_unsub_ack decode_unsub_ack header_byte
      validate_packet_type type_bits packet_type_from nibble_type
  decode-encode_acks h = (
    decode-encode_id pub_ack 0 refl h,
    decode-encode_id pub_rec 0 refl h,
    decode-encode_id pub_rel 2 refl h,
    decode-encode_id pub_comp 0 refl h,
    decode-encode_id unsub_ack 0 refl h,
  )
