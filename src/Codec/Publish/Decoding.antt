-- ===== src/Codec/Publish/Decoding.antt =====
-- `PublishPacket::decode` reads the bytes of a packet back.
use picobroker.Base.{
  ℕ, ◌+◌, ◌-◌, ◌/◌, ◌%◌, ◌≤◌, ◌<◌, ◌≡◌, refl, ap, ◌∙◌, subst, true, false, Option, List, ◌∷◌, ◌++◌,
  arith, ltb, leb, gt→leb, ge→ltb, ◌==◌, ==_self, ne→==, length, drop, length-append, inl, inr,
}
use picobroker.Base.Result.{ok}
use picobroker.Base.Utf8.{is_utf8}
use picobroker.Heapless
use picobroker.Heapless.{HeaplessVec, as_slice, u16_mod}
use picobroker.Heapless.Laws.{length-as_slice, new_lem, extend_from_slice_lem}
use picobroker.Packets.{PublishPacket}
use picobroker.Protocol.{ProtocolError, QoS, publish, type_bits, payload_too_large}
use picobroker.Text
use picobroker.Text.{as_str}
use picobroker.Text.Laws.{length-as_str, as_str-IsValid, try_from_lem}
use picobroker.Wire.{variable_length_length, byte_at}
use picobroker.Wire.Fields.{u16_bytes, field_bytes, length_bytes, length-length_bytes}
use picobroker.Wire.Reads.{
  StandsAt, StandsAt-after, StandsAt-length, slice_from-StandsAt, slice-StandsAt, read_u16-StandsAt,
  read_string-StandsAt, read_variable_length_lem,
}
use picobroker.Codec.Publish.{vec_from, read_packet_id, decode, publish_flags}
use picobroker.Codec.Publish.Bytes.{
  HasId, HasId-cases, id_bytes, id_size, length-id_bytes, Sendable, remaining, header,
  publish_header_byte-reads,
}
use picobroker.Codec.Publish.Encoding.{remaining-le}

-- A vector built from bytes that fit holds those bytes.
pub vec_from_lem :
    {N : ℕ} (bytes : List ℕ) (e : ProtocolError)
    → N < u16_mod
    → length bytes ≤ N
    → (v : HeaplessVec ℕ N) × (vec_from bytes e ≡ ok v) × Heapless.IsValid v × (as_slice v ≡ bytes)
unfolding vec_from
vec_from_lem {N} bytes e h l =
    let (ok_new, empty) = new_lem {T = ℕ} {N = N} 0 h in
    elim (extend_from_slice_lem (Heapless.new {N = N} 0) bytes ok_new) [
      | inl (w, m, ok_w, _, app) ↦
          (w, rw (vec_from, m) refl, ok_w, app ∙ ap (λ t. t ++ bytes) empty)
      | inr (m, over) ↦
          absurd (omega (arith, ap length empty, length-as_slice (Heapless.new {N = N} 0) ok_new))
    ]

-- A text that is stored in a valid string is stored whole.
pub try_from-as_str :
    {N : ℕ} (s : Text.HeaplessString N)
    → Text.IsValid s
    → (t : Text.HeaplessString N) × (Text.try_from (as_str s) ≡ ok t)
      × Text.IsValid t
      × (as_str t ≡ as_str s)
try_from-as_str {N} s v =
    elim (try_from_lem {N = N} (as_str s) v.fits (ap is_utf8 (as_str-IsValid s v) ∙ v.text)) [
      | inl (t, m, ok_t, _, same) ↦ (t, m, ok_t, same)
      | inr (m, over) ↦ absurd (omega (arith, length-as_str s v, v.within))
    ]

read_packet_id-StandsAt :
    (q : QoS) (o : Option ℕ) (bytes rest : List ℕ) (off : ℕ)
    → HasId q o
    → StandsAt bytes off (id_bytes q o) rest
    → off ≤ length bytes
    → read_packet_id q bytes off ≡ ok (o, off + id_size q)
unfolding read_packet_id
read_packet_id-StandsAt q o bytes rest off h at l = elim (HasId-cases q o h) [
  | inl (zero_qos, absent, no_size, no_bytes) ↦
      let z : off + 0 ≡ off = omega arith in rw (zero_qos, absent, no_size, z) refl
  | inr (k, qos, there, size, bytes_k, pos, small) ↦
      let at_k : StandsAt bytes off (u16_bytes k) rest =
        subst (λ t. StandsAt bytes off t rest) bytes_k at in
      let whole = StandsAt-length bytes rest off (u16_bytes k) at_k l in
      let not_zero : (k == 0) ≡ false = ne→== k 0 (λ z. omega arith) in
      rw
        (
          qos,
          size,
          there,
          ge→ltb (length bytes) (off + 2) (omega (arith, whole)),
          read_u16-StandsAt bytes rest off k at_k small,
          not_zero,
        )
        refl
]

-- What a packet says, apart from the unused room of its text and its payload.
pub record SamePublish {L P : ℕ} (p q : PublishPacket L P) : Type 0 where
  pub topic : as_str q.topic_name ≡ as_str p.topic_name
  pub packet_id : q.packet_id ≡ p.packet_id
  pub payload : as_slice q.payload ≡ as_slice p.payload
  pub qos : q.qos ≡ p.qos
  pub dup : q.dup ≡ p.dup
  pub retain : q.retain ≡ p.retain

module _ {L P : ℕ} (p : PublishPacket L P) (s : Sendable p) (rest : List ℕ) where
  pub decode-fields :
      (q : PublishPacket L P) × (decode (
          header p
          ∷ (length_bytes (remaining p)
              ++ (field_bytes (as_str p.topic_name)
                  ++ (id_bytes p.qos p.packet_id ++ (as_slice p.payload ++ rest)))))
        ≡ ok q)
      × SamePublish p q
  unfolding decode byte_at publish_flags type_bits
  decode-fields =
      let n = variable_length_length (remaining p) in
      let t = as_str p.topic_name in
      let a = as_slice p.payload in
      let k = id_size p.qos in
      let r3 = a ++ rest in
      let r2 = id_bytes p.qos p.packet_id ++ r3 in
      let r1 = field_bytes t ++ r2 in
      let bytes = header p ∷ (length_bytes (remaining p) ++ r1) in
      let t_len = length-as_str p.topic_name s.topic in
      let at1 : StandsAt bytes 1 (length_bytes (remaining p)) r1 = refl in
      let at2 : StandsAt bytes (1 + n) (field_bytes t) r2 =
        subst (λ m. drop (1 + m) bytes ≡ r1) (length-length_bytes (remaining p))
          (StandsAt-after bytes 1 (length_bytes (remaining p)) r1 at1) in
      let l2 : 1 + n ≤ length bytes =
        omega (
          arith,
          length-append (length_bytes (remaining p)) r1,
          length-length_bytes (remaining p),
        ) in
      let whole2 = StandsAt-length bytes r2 (1 + n) (field_bytes t) at2 l2 in
      let at3 : StandsAt bytes (1 + n + 2 + length t) (id_bytes p.qos p.packet_id) r3 =
        subst (λ m. drop m bytes ≡ r2) (omega arith)
          (StandsAt-after bytes (1 + n) (field_bytes t) r2 at2) in
      let i_len = length-id_bytes p.qos p.packet_id s.id in
      let at4 : StandsAt bytes (1 + n + 2 + length t + k) a rest =
        subst (λ m. drop (1 + n + 2 + length t + m) bytes ≡ r3) i_len
          (StandsAt-after bytes (1 + n + 2 + length t) (id_bytes p.qos p.packet_id) r3 at3) in
      let whole4 =
        StandsAt-length bytes rest (1 + n + 2 + length t + k) a at4
          (omega (arith, whole2, i_len, length-append (id_bytes p.qos p.packet_id) r3)) in
      let (type_ok, flags_ok) = publish_header_byte-reads (publish_flags p) in
      let is_publish : (header p / 16 % 16 == type_bits publish) ≡ true = rw type_ok refl in
      let tail = slice_from-StandsAt bytes r1 1 (length_bytes (remaining p)) at1 (omega arith) in
      let var = read_variable_length_lem (remaining p) r1 (remaining-le p s) in
      let str =
        read_string-StandsAt bytes r2 (1 + n) t at2 l2 (omega (arith, t_len, s.topic.within))
          (ap is_utf8 (as_str-IsValid p.topic_name s.topic) ∙ s.topic.text) in
      let named : (length t == 0) ≡ false = ne→== (length t) 0 (λ z. omega (arith, s.named)) in
      let (topic, topic_ok, _, same_topic) = try_from-as_str p.topic_name s.topic in
      let pid =
        read_packet_id-StandsAt p.qos p.packet_id bytes r3 (1 + n + 2 + length t) s.id at3
          (omega (arith, whole2)) in
      let end : 1 + n + remaining p ≡ 1 + n + 2 + length t + k + length a = omega arith in
      let inside : ltb (length bytes) (1 + n + 2 + length t + k + length a) ≡ false =
        ge→ltb _ _ (omega (arith, whole4)) in
      let body =
        slice-StandsAt bytes rest (1 + n + 2 + length t + k) a at4 (omega (arith, whole4)) in
      let (payload, payload_ok, _, same_payload) =
        vec_from_lem {N = P} a (payload_too_large P (length a)) s.payload.fits
          (omega (arith, length-as_slice p.payload s.payload, s.payload.within)) in
      let consumed : (1 + n + 2 + length t + k - (1 + n) + length a == remaining p) ≡ true =
        let same : 1 + n + 2 + length t + k - (1 + n) + length a ≡ remaining p = omega arith in
        rw same (==_self (remaining p)) in
      let nonempty : leb (length bytes) 0 ≡ false = gt→leb _ _ (omega arith) in
      let q : PublishPacket L P = record {
        topic_name = topic;
        packet_id = p.packet_id;
        payload = payload;
        qos = p.qos;
        dup = p.dup;
        retain = p.retain;
      } in
      (
        q,
        rw
            (
              nonempty, is_publish, flags_ok, tail, var, str, named, topic_ok, pid, end, inside,
              body, payload_ok, consumed,
            )
            refl,
        record {
          topic = same_topic;
          packet_id = refl;
          payload = same_payload;
          qos = refl;
          dup = refl;
          retain = refl;
        },
      )
