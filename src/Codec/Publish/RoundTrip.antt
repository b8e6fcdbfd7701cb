-- ===== src/Codec/Publish/RoundTrip.antt =====
-- `PublishPacket::encode` and `PublishPacket::decode`, one after the other.
use picobroker.Base.{ℕ, ◌≤◌, ◌≡◌, ◌∙◌, ap, sym, List, ◌++◌, length, take, drop, take-append}
use picobroker.Base.Result.{Outcome, ok}
use picobroker.Packets.{PublishPacket}
use picobroker.Protocol.{ProtocolError}
use picobroker.Codec.Publish.{encode, decode}
use picobroker.Codec.Publish.Bytes.{
  Sendable, publish_bytes, publish_bytes-fields, publish_size, length-publish_bytes,
}
use picobroker.Codec.Publish.Encoding.{encode-publish_bytes}
use picobroker.Codec.Publish.Decoding.{SamePublish, decode-fields}

-- The bytes that are written decode to the packet, whatever follows them.
abbrev pub ReadsBack : {L P : ℕ} → PublishPacket L P → Outcome ProtocolError (ℕ × List ℕ) → Type 0
ReadsBack {L} {P} p m =
    (written : List ℕ) × (m ≡ ok (publish_size p, written))
    × ((rest : List ℕ)
        → (q : PublishPacket L P) × (decode (take (publish_size p) written ++ rest) ≡ ok q)
          × SamePublish p q)

-- A PUBLISH packet whose topic and payload are valid, whose topic is not empty and whose id is
-- there exactly if its quality of service is above AtMostOnce is encoded into a buffer that is
-- long enough, and decoding the bytes that were written, whatever follows them, gives a packet
-- with the same topic text, id, payload, quality of service and flags.
pub decode-encode :
    {L P : ℕ} (p : PublishPacket L P) (buffer : List ℕ)
    → Sendable p
    → publish_size p ≤ length buffer
    → ReadsBack p (encode p buffer)
decode-encode p buffer s h =
    let tail = drop (publish_size p) buffer in
    let bytes : take (publish_size p) (publish_bytes p ++ tail) ≡ publish_bytes p =
      ap (λ n. take n (publish_bytes p ++ tail)) (sym (length-publish_bytes p s))
      ∙ take-append (publish_bytes p) tail in
    (
      publish_bytes p ++ tail,
      encode-publish_bytes p s buffer h,
      λ rest.
          let (q, d, same) = decode-fields p s rest in
          (
            q,
            ap (λ b. decode (b ++ rest)) bytes ∙ ap decode (publish_bytes-fields p rest) ∙ d,
            same,
          ),
    )
