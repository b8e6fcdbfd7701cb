-- ===== src/Tokio/Io/Frames.antt =====
-- A PUBLISH packet from `encode_frame` of one side to `read_packet` of the other.
use picobroker.Base.{
  ℕ, ◌+◌, ◌≤◌, ◌<◌, ◌≡◌, ◌⊎◌, ◌∙◌, refl, ap, sym, subst, arith, List, [], ◌∷◌, ◌++◌, some, Option,
  length, drop, replicate, length-replicate, append-nil, append_assoc,
}
use picobroker.Base.Result.{ok, err, Step, done}
use picobroker.Codec.Packet
use picobroker.Codec.Publish.Bytes.{
  Sendable, header, remaining, publish_bytes, publish_bytes-fields, publish_size,
  publish_header_byte-type, body, publish_bytes-body, length-body,
}
use picobroker.Codec.Publish
use picobroker.Codec.Publish.Encoding.{
  encode-publish_bytes, encode-too_small, slice-publish_bytes, remaining-le,
}
use picobroker.Codec.Publish.Decoding.{SamePublish, decode-fields}
use picobroker.Heapless.{as_slice}
use picobroker.Packets.{Packet, PublishPacket}
use picobroker.Protocol.{ProtocolError, packet_type_from}
use picobroker.Wire.{byte_at, variable_length_length}
use picobroker.Wire.Fields.{length_bytes}
use picobroker.Tokio.Io.{BytesMut, invalid_data, read_packet, encode_frame}
use picobroker.Tokio.Io.Filling.{BytesMutLaws, AllData, joined}
use picobroker.Tokio.Io.Framing.{Delivers, read_packet-Delivers}

-- A packet that says the same has been read, and what follows it is left.
abbrev pub Arrives :
    {L P : ℕ} (B : BytesMut)
    → PublishPacket L P
    → List ℕ
    → Step (B.Buffer × List (List ℕ)) ProtocolError (Option (Packet L P))
    → Type 0
Arrives {L} {P} B p rest m =
    (q : PublishPacket L P) × (buffer : B.Buffer) × (socket : List (List ℕ)) × (m
      ≡ done (buffer, socket) (some (Packet.publish q)))
    × SamePublish p q
    × (B.bytes buffer ++ joined socket ≡ rest)

module _ {L P : ℕ} (p : PublishPacket L P) (s : Sendable p) where
  abbrev zeros : List ℕ
  zeros = replicate (5 + P + L) 0

  length-zeros : length zeros ≡ 5 + P + L
  length-zeros = length-replicate {A = ℕ} (5 + P + L) 0

  pub encode_frame-publish :
      publish_size p ≤ 5 + P + L → encode_frame (Packet.publish p) ≡ ok (publish_bytes p)
  unfolding encode_frame Packet.encode
  encode_frame-publish h =
      let fits : publish_size p ≤ length zeros = omega (arith, length-zeros) in
      rw
        (encode-publish_bytes p s zeros fits, slice-publish_bytes p s (drop (publish_size p) zeros))
        refl

  -- A PUBLISH packet that can be sent and of which all but the payload fits the buffer of
  -- encode_frame, but not the whole, is refused.
  pub encode_frame-refused :
      publish_size p ≤ 5 + P + L + length (as_slice p.payload)
      → 5 + P + L < publish_size p
      → encode_frame (Packet.publish p) ≡ err invalid_data
  unfolding encode_frame Packet.encode
  encode_frame-refused h short =
      rw (encode-too_small p s zeros (omega (arith, length-zeros)) (omega (arith, length-zeros)))
        refl

  decode-publish_bytes :
      (q : PublishPacket L P) × (Packet.decode (publish_bytes p) ≡ ok (Packet.publish q))
      × SamePublish p q
  unfolding Packet.decode Packet.decode_as byte_at packet_type_from
  decode-publish_bytes =
      let (q, e, same) = decode-fields p s [] in
      let bytes = sym (append-nil (publish_bytes p)) ∙ publish_bytes-fields p [] in
      (q, rw (bytes, publish_header_byte-type (Publish.publish_flags p), e) refl, same)

  -- A PUBLISH packet whose topic and payload are valid, whose topic is not empty, whose id is
  -- there exactly if its quality of service is above AtMostOnce, and whose bytes fit the buffer
  -- of encode_frame, is encoded as a frame; where those bytes come next on a stream, however the
  -- reads cut it, read_packet gives a packet that says the same and leaves what follows,
  -- provided that the remaining length takes one byte or its bytes are in the buffer already.
  pub read_packet-encode_frame :
      (B : BytesMut) (laws : BytesMutLaws B) (buffer : B.Buffer) (socket : List (List ℕ))
      (rest : List ℕ)
      → publish_size p ≤ 5 + P + L
      → AllData socket
      → (remaining p < 128) ⊎ (1 + variable_length_length (remaining p) ≤ length (B.bytes buffer))
      → B.bytes buffer ++ joined socket ≡ publish_bytes p ++ rest
      → (encode_frame (Packet.publish p) ≡ ok (publish_bytes p))
        × Arrives B p rest (read_packet B buffer socket)
  read_packet-encode_frame B laws buffer socket rest fits d held e =
      let (q, decodes, same) = decode-publish_bytes in
      let v = remaining p in
      let framed =
        subst
          (λ m.
            Delivers B laws {L = L} {P = P} rest m (read_packet B {L = L} {P = P} buffer socket))
          (ap Packet.decode (sym (publish_bytes-body p)) ∙ decodes)
          (read_packet-Delivers B laws L P buffer socket (header p) v (body p) rest d
            (remaining-le p s) (length-body p s) held
            (e
              ∙ ap (λ k. k ++ rest) (publish_bytes-body p)
              ∙ ap (◌∷◌ (header p)) (append_assoc (length_bytes v) (body p) rest))) in
      let (buffer', socket', delivered, left, _) = framed in
      (encode_frame-publish fits, (q, buffer', socket', delivered, same, left))
