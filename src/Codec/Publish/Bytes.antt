-- ===== src/Codec/Publish/Bytes.antt =====
-- The bytes of a PUBLISH packet, and the packets that can be sent.
use picobroker.Base.{
  ℕ, ◌+◌, ◌/◌, ◌%◌, ◌<◌, ◌≤◌, ◌⊎◌, inl, inr, ◌==◌, if◌then◌else◌, ◌≡◌, refl, ap, ◌∙◌, Bool, true,
  false, Option, none, some, List, [], ◌∷◌, ◌++◌, arith, length, length-append, append_assoc,
}
use mathlib.Core.Option.{some-injective}
use picobroker.Base.Result.{ok}
use picobroker.Heapless
use picobroker.Heapless.{as_slice}
use picobroker.Packets.{PublishPacket}
use picobroker.Protocol.{
  QoS, at_most_once, at_least_once, exactly_once, qos_bits, qos_from, type_bits,
}
use picobroker.Text
use picobroker.Text.{as_str}
use picobroker.Text.Laws.{length-as_str}
use picobroker.Wire.{variable_length_length}
use picobroker.Wire.Fields.{u16_bytes, field_bytes, length_bytes, length-length_bytes}
use picobroker.Codec.Publish.{
  PublishFlags, publish_header_byte, publish_flags, to_nibble, from_nibble,
}

-- A packet of QoS 0 has no id, any other has one that is not 0.
abbrev pub HasId : QoS → Option ℕ → Type 0
HasId at_most_once o = o ≡ none
HasId _ o = (k : ℕ) × (o ≡ some k) × (0 < k) × (k < 65536)

abbrev pub id_bytes : QoS → Option ℕ → List ℕ
id_bytes at_most_once o = []
id_bytes _ none = []
id_bytes _ (some k) = u16_bytes k

pub record Sendable {L P : ℕ} (p : PublishPacket L P) : Type 0 where
  pub topic : Text.IsValid p.topic_name
  pub named : 0 < p.topic_name.length
  pub payload : Heapless.IsValid p.payload
  pub id : HasId p.qos p.packet_id

abbrev pub id_size : QoS → ℕ
id_size at_most_once = 0
id_size _ = 2

pub length-id_bytes : (q : QoS) (o : Option ℕ) → HasId q o → length (id_bytes q o) ≡ id_size q
length-id_bytes at_most_once o h = refl
length-id_bytes at_least_once none (k, e, _, _) = cc
length-id_bytes at_least_once (some i) h = refl
length-id_bytes exactly_once none (k, e, _, _) = cc
length-id_bytes exactly_once (some i) h = refl

pub id_size-le : (q : QoS) → id_size q ≤ 2
id_size-le at_most_once = omega arith
id_size-le at_least_once = omega arith
id_size-le exactly_once = omega arith

pub id_size-if : (q : QoS) → (if qos_bits q == 0 then 0 else 2) ≡ id_size q
unfolding qos_bits
id_size-if at_most_once = refl
id_size-if at_least_once = refl
id_size-if exactly_once = refl

-- A packet has no id, or one that fits a u16.
pub HasId-cases :
    (q : QoS) (o : Option ℕ)
    → HasId q o
    → (((qos_bits q == 0) ≡ true) × (o ≡ none) × (id_size q ≡ 0) × (id_bytes q o ≡ []))
      ⊎ ((k : ℕ) × ((qos_bits q == 0) ≡ false)
          × (o ≡ some k)
          × (id_size q ≡ 2)
          × (id_bytes q o ≡ u16_bytes k)
          × (0 < k)
          × (k < 65536))
unfolding qos_bits
HasId-cases at_most_once o h = inl (refl, h, refl, refl)
HasId-cases at_least_once none (k, e, _, _) = cc
HasId-cases at_least_once (some i) (k, e, l, m) =
    inr (k, refl, e, refl, ap u16_bytes (some-injective i k e), l, m)
HasId-cases exactly_once none (k, e, _, _) = cc
HasId-cases exactly_once (some i) (k, e, l, m) =
    inr (k, refl, e, refl, ap u16_bytes (some-injective i k e), l, m)

module _ {L P : ℕ} where
  abbrev pub remaining : PublishPacket L P → ℕ
  remaining p = 2 + p.topic_name.length + id_size p.qos + length (as_slice p.payload)

  abbrev pub header : PublishPacket L P → ℕ
  header p = publish_header_byte (publish_flags p)

  -- The bytes up to the topic, up to the packet id, up to the payload, and all of them.
  abbrev pub bytes_before_topic : PublishPacket L P → List ℕ
  bytes_before_topic p = header p ∷ length_bytes (remaining p)

  abbrev pub bytes_before_id : PublishPacket L P → List ℕ
  bytes_before_id p = bytes_before_topic p ++ field_bytes (as_str p.topic_name)

  abbrev pub bytes_before_payload : PublishPacket L P → List ℕ
  bytes_before_payload p = bytes_before_id p ++ id_bytes p.qos p.packet_id

  abbrev pub publish_bytes : PublishPacket L P → List ℕ
  publish_bytes p = bytes_before_payload p ++ as_slice p.payload

  unfoldable pub publish_size : PublishPacket L P → ℕ
  publish_size p = 1 + variable_length_length (remaining p) + remaining p

  pub length-publish_bytes :
      (p : PublishPacket L P) → Sendable p → length (publish_bytes p) ≡ publish_size p
  unfolding publish_size
  length-publish_bytes p s = omega (
    arith,
    length-append (bytes_before_payload p) (as_slice p.payload),
    length-append (bytes_before_id p) (id_bytes p.qos p.packet_id),
    length-append (bytes_before_topic p) (field_bytes (as_str p.topic_name)),
    length-length_bytes (remaining p),
    length-id_bytes p.qos p.packet_id s.id,
    length-as_str p.topic_name s.topic,
  )

  -- What the remaining length counts.
  abbrev pub body : PublishPacket L P → List ℕ
  body p = field_bytes (as_str p.topic_name) ++ (id_bytes p.qos p.packet_id ++ as_slice p.payload)

  pub publish_bytes-body :
      (p : PublishPacket L P) → publish_bytes p ≡ header p ∷ (length_bytes (remaining p) ++ body p)
  publish_bytes-body p =
      append_assoc (bytes_before_id p) (id_bytes p.qos p.packet_id) (as_slice p.payload)
      ∙ append_assoc (bytes_before_topic p) (field_bytes (as_str p.topic_name))
          (id_bytes p.qos p.packet_id ++ as_slice p.payload)

  pub length-body : (p : PublishPacket L P) → Sendable p → length (body p) ≡ remaining p
  length-body p s = omega (
    arith,
    length-append (field_bytes (as_str p.topic_name))
        (id_bytes p.qos p.packet_id ++ as_slice p.payload),
    length-append (id_bytes p.qos p.packet_id) (as_slice p.payload),
    length-id_bytes p.qos p.packet_id s.id,
    length-as_str p.topic_name s.topic,
  )

  -- The same bytes, one field behind the other.
  pub publish_bytes-fields :
      (p : PublishPacket L P) (rest : List ℕ)
      → publish_bytes p ++ rest
        ≡ header p
          ∷ (length_bytes (remaining p)
              ++ (field_bytes (as_str p.topic_name)
                  ++ (id_bytes p.qos p.packet_id ++ (as_slice p.payload ++ rest))))
  publish_bytes-fields p rest =
      let a = as_slice p.payload in
      let i = id_bytes p.qos p.packet_id in
      let t = field_bytes (as_str p.topic_name) in
      append_assoc (bytes_before_payload p) a rest
      ∙ append_assoc (bytes_before_id p) i (a ++ rest)
      ∙ append_assoc (bytes_before_topic p) t (i ++ (a ++ rest))

-- The flags are read back from the first byte, beside the packet type.
pub publish_header_byte-reads :
    (f : PublishFlags)
    → (publish_header_byte f / 16 % 16 ≡ 3) × (from_nibble (publish_header_byte f % 16) ≡ ok f)
unfolding publish_header_byte to_nibble from_nibble qos_bits qos_from type_bits
publish_header_byte-reads f = by_fields f.dup f.qos f.retain
  where
    by_fields :
        (d : Bool) (q : QoS) (r : Bool)
        → (publish_header_byte (record { dup = d; qos = q; retain = r }) / 16 % 16 ≡ 3)
          × (from_nibble (publish_header_byte (record { dup = d; qos = q; retain = r }) % 16)
              ≡ ok (record { dup = d; qos = q; retain = r }))
    by_fields true at_most_once true = (refl, refl)
    by_fields true at_most_once false = (refl, refl)
    by_fields true at_least_once true = (refl, refl)
    by_fields true at_least_once false = (refl, refl)
    by_fields true exactly_once true = (refl, refl)
    by_fields true exactly_once false = (refl, refl)
    by_fields false at_most_once true = (refl, refl)
    by_fields false at_most_once false = (refl, refl)
    by_fields false at_least_once true = (refl, refl)
    by_fields false at_least_once false = (refl, refl)
    by_fields false exactly_once true = (refl, refl)
    by_fields false exactly_once false = (refl, refl)

pub publish_header_byte-type : (f : PublishFlags) → publish_header_byte f / 16 ≡ 3
unfolding publish_header_byte type_bits
publish_header_byte-type f = omega arith
