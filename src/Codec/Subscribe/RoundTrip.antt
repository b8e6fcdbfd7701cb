-- ===== src/Codec/Subscribe/RoundTrip.antt =====
-- SUBSCRIBE and UNSUBSCRIBE packets are read back as they were written.
use picobroker.Base.{
  ℕ, ◌+◌, ◌-◌, ◌≤◌, ◌<◌, ◌≡◌, refl, ap, ◌∙◌, subst, sym, true, false, List, [], ◌∷◌, ◌++◌, arith,
  ltb, leb, gt→leb, ge→ltb, ◌==◌, ==_self, length, take, drop, get_elem?-append, take-append,
  append_assoc, length-append,
}
use picobroker.Base.Result.{Outcome, ok}
use picobroker.Packets.{TopicName}
use picobroker.Protocol.{
  ProtocolError, QoS, at_most_once, at_least_once, exactly_once, qos_bits, qos_from, subscribe,
  unsubscribe, type_bits,
}
use picobroker.Text
use picobroker.Text.{as_str}
use picobroker.Text.Laws.{length-as_str}
use picobroker.Wire.{max_variable_length, variable_length_length, byte_at}
use picobroker.Wire.Writes.{store-at}
use picobroker.Codec.Subscribe.{
  encode_subscribe, decode_subscribe, encode_unsubscribe, decode_unsubscribe,
}
use picobroker.Codec.Subscribe.Filters.{
  filter_end, filter_bytes, filter_room, encode_filter-bytes, length-filter_room,
  length-filter_bytes, decode_filter-bytes,
}

-- A filter that is not empty, with a packet id.
pub record Sendable {L : ℕ} (id : ℕ) (f : TopicName L) : Type 0 where
  pub topic : Text.IsValid f
  pub named : 0 < f.length
  pub positive : 0 < id
  pub fits : id < 65536

qos_from-qos_bits : (q : QoS) → qos_from (qos_bits q) ≡ ok q
unfolding qos_from qos_bits
qos_from-qos_bits at_most_once = refl
qos_from-qos_bits at_least_once = refl
qos_from-qos_bits exactly_once = refl

module _ {L : ℕ} (id : ℕ) (f : TopicName L) where
  abbrev pub unsubscribe_remaining : ℕ
  unsubscribe_remaining = 2 + 2 + f.length

  abbrev pub subscribe_remaining : ℕ
  subscribe_remaining = 2 + 2 + f.length + 1

  abbrev pub unsubscribe_size : ℕ
  unsubscribe_size = 1 + variable_length_length unsubscribe_remaining + unsubscribe_remaining

  abbrev pub subscribe_size : ℕ
  subscribe_size = 1 + variable_length_length subscribe_remaining + subscribe_remaining

  -- The bytes that are written decode to the packet, whatever follows them.
  abbrev pub UnsubscribeReadsBack : Outcome ProtocolError (ℕ × List ℕ) → Type 0
  UnsubscribeReadsBack m =
      (written : List ℕ) × (m ≡ ok (unsubscribe_size, written))
      × ((rest : List ℕ)
          → (name : TopicName L) × (decode_unsubscribe (take unsubscribe_size written ++ rest)
              ≡ ok (record { packet_id = id; topic_filter = name }))
            × (as_str name ≡ as_str f))

  abbrev pub SubscribeReadsBack : QoS → Outcome ProtocolError (ℕ × List ℕ) → Type 0
  SubscribeReadsBack q m =
      (written : List ℕ) × (m ≡ ok (subscribe_size, written))
      × ((rest : List ℕ)
          → (name : TopicName L) × (decode_subscribe (take subscribe_size written ++ rest)
              ≡ ok (record { packet_id = id; topic_filter = name; requested_qos = q }))
            × (as_str name ≡ as_str f))

  pub decode-encode_unsubscribe :
      (buffer : List ℕ)
      → Sendable id f
      → unsubscribe_size ≤ length buffer
      → UnsubscribeReadsBack
          (encode_unsubscribe (record { packet_id = id; topic_filter = f }) buffer)
  unfolding encode_unsubscribe decode_unsubscribe Text.len type_bits
  decode-encode_unsubscribe buffer s h =
      let rem = unsubscribe_remaining in
      let n = variable_length_length rem in
      let bytes = filter_bytes unsubscribe id f rem in
      let room = filter_room unsubscribe id f rem buffer in
      let small : rem ≤ max_variable_length = omega (arith, s.topic.within, s.topic.fits) in
      let s_len = length-as_str f s.topic in
      let end : filter_end unsubscribe id f rem ≡ unsubscribe_size = omega arith in
      let b_len = length-filter_bytes unsubscribe id f rem s.topic in
      let e = encode_filter-bytes unsubscribe id f rem buffer s.topic small (omega (arith, end)) in
      let taken : take unsubscribe_size (bytes ++ room) ≡ bytes =
        ap (λ k. take k (bytes ++ room)) (sym end ∙ sym b_len) ∙ take-append bytes room in
      (
        bytes ++ room,
        rw e (ap (λ k. ok (k, bytes ++ room)) end),
        λ rest.
            let (name, d, same) =
              decode_filter-bytes unsubscribe id f rem rest s.topic s.named small s.positive s.fits
                refl in
            let consumed : (filter_end unsubscribe id f rem - (1 + n) == rem) ≡ true =
              let eq : filter_end unsubscribe id f rem - (1 + n) ≡ rem = omega arith in
              rw eq (==_self rem) in
            (name, rw (taken, d, consumed) refl, same),
      )

  decode_subscribe-bytes :
      (q : QoS) (rest : List ℕ)
      → Sendable id f
      → (name : TopicName L) × (decode_subscribe
            (filter_bytes subscribe id f subscribe_remaining ++ qos_bits q ∷ rest)
          ≡ ok (record { packet_id = id; topic_filter = name; requested_qos = q }))
        × (as_str name ≡ as_str f)
  unfolding decode_subscribe type_bits byte_at
  decode_subscribe-bytes q rest s =
      let rem = subscribe_remaining in
      let n = variable_length_length rem in
      let front = filter_bytes subscribe id f rem in
      let bytes = front ++ qos_bits q ∷ rest in
      let s_len = length-as_str f s.topic in
      let off = filter_end subscribe id f rem in
      let b_len : length front ≡ off = length-filter_bytes subscribe id f rem s.topic in
      let (name, d, same) =
        decode_filter-bytes subscribe id f rem (qos_bits q ∷ rest) s.topic s.named
          (omega (arith, s.topic.within, s.topic.fits)) s.positive s.fits refl in
      let inside : ltb (length bytes) (off + 1) ≡ false =
        ge→ltb _ _ (omega (arith, b_len, length-append front (qos_bits q ∷ rest))) in
      let at : byte_at bytes off ≡ ok (qos_bits q) =
        subst (λ k. byte_at bytes k ≡ ok (qos_bits q)) b_len
          (rw (byte_at, get_elem?-append front rest (qos_bits q)) refl) in
      let consumed : (off + 1 - (1 + n) == rem) ≡ true =
        let eq : off + 1 - (1 + n) ≡ rem = omega arith in rw eq (==_self rem) in
      (name, rw (decode_subscribe, d, inside, at, qos_from-qos_bits q, consumed) refl, same)

  pub decode-encode_subscribe :
      (q : QoS) (buffer : List ℕ)
      → Sendable id f
      → subscribe_size ≤ length buffer
      → SubscribeReadsBack q
          (encode_subscribe (record { packet_id = id; topic_filter = f; requested_qos = q }) buffer)
  unfolding encode_subscribe Text.len
  decode-encode_subscribe q buffer s h =
      let rem = subscribe_remaining in
      let n = variable_length_length rem in
      let front = filter_bytes subscribe id f rem in
      let room = filter_room subscribe id f rem buffer in
      let off = filter_end subscribe id f rem in
      let s_len = length-as_str f s.topic in
      let end : off + 1 ≡ subscribe_size = omega arith in
      let b_len : length front ≡ off = length-filter_bytes subscribe id f rem s.topic in
      let e =
        encode_filter-bytes subscribe id f rem buffer s.topic
          (omega (arith, s.topic.within, s.topic.fits)) (omega (arith, end)) in
      let r_len : length room ≡ length buffer - off =
        length-filter_room subscribe id f rem buffer in
      let inside : leb (length (front ++ room)) off ≡ false =
        gt→leb _ _ (omega (arith, length-append front room)) in
      let stored = store-at front room off (qos_bits q) (sym b_len) (omega arith) in
      let written = (front ++ qos_bits q ∷ []) ++ drop 1 room in
      let w_len : length (front ++ qos_bits q ∷ []) ≡ subscribe_size =
        omega (arith, length-append front (qos_bits q ∷ [])) in
      let taken : take subscribe_size written ≡ front ++ qos_bits q ∷ [] =
        ap (λ k. take k written) (sym w_len)
        ∙ take-append (front ++ qos_bits q ∷ []) (drop 1 room) in
      (
        written,
        rw (encode_subscribe, e, inside, stored) (ap (λ k. ok (k, written)) end),
        λ rest.
            let (name, d, same) = decode_subscribe-bytes q rest s in
            (
              name,
              ap (λ k. decode_subscribe (k ++ rest)) taken
                  ∙ ap decode_subscribe (append_assoc front (qos_bits q ∷ []) rest)
                  ∙ d,
              same,
            ),
      )

  -- SUBSCRIBE and UNSUBSCRIBE packets with an id that is not 0 and fits a u16 and a valid topic
  -- filter that is not empty are encoded into a buffer that is long enough for both, and
  -- decoding the bytes that were written, whatever follows them, gives the id, the text of the
  -- filter and the requested quality of service back.
  pub decode-encode_filters :
      (q : QoS) (buffer : List ℕ)
      → Sendable id f
      → subscribe_size ≤ length buffer
      → unsubscribe_size ≤ length buffer
      → SubscribeReadsBack q
          (encode_subscribe (record { packet_id = id; topic_filter = f; requested_qos = q }) buffer)
        × UnsubscribeReadsBack
            (encode_unsubscribe (record { packet_id = id; topic_filter = f }) buffer)
  decode-encode_filters q buffer s h k =
      (decode-encode_subscribe q buffer s h, decode-encode_unsubscribe buffer s k)
