-- ===== src/Codec/Publish/Encoding.antt =====
-- `PublishPacket::encode` writes the bytes of the packet.
use picobroker.Base.{subst}
use picobroker.Base.{
  ℕ, ◌+◌, ◌-◌, ◌≤◌, ◌<◌, ◌≡◌, refl, ap, ◌∙◌, sym, false, List, [], ◌∷◌, ◌++◌, arith, ltb, gt→leb,
  ge→ltb, lt→ltb, length, drop, length-append, length-drop, append-nil, inl, inr,
}
use picobroker.Base.Result.{Outcome, ok, err, ◌>>=◌, ◌>>◌, check}
use picobroker.Heapless.{as_slice}
use picobroker.Heapless.Laws.{length-as_slice}
use picobroker.Packets.{PublishPacket}
use picobroker.Protocol.{ProtocolError, buffer_too_small}
use picobroker.Text
use picobroker.Text.{as_str}
use picobroker.Text.Laws.{length-as_str}
use picobroker.Wire.{store_all, max_variable_length, variable_length_length}
use picobroker.Wire.{slice}
use picobroker.Wire.Reads.{slice-StandsAt}
use picobroker.Wire.Fields.{field_bytes, length-length_bytes, drop-drop}
use picobroker.Wire.Writes.{store-at, store_all-at, store_u16-at, write_string-at, write_length-at}
use picobroker.Codec.Publish.{encode, write_packet_id}
use picobroker.Codec.Publish.Bytes.{
  HasId-cases, id_size-le, id_size-if, id_bytes, id_size, length-id_bytes, Sendable, remaining,
  header, bytes_before_topic, bytes_before_id, bytes_before_payload, publish_bytes, publish_size,
  length-publish_bytes,
}

pair :
    {x y : ℕ} {u v : List ℕ}
    → x ≡ y
    → u ≡ v
    → ◌≡◌ {A = Outcome ProtocolError (ℕ × List ℕ)} (ok (x, u)) (ok (y, v))
pair e h = cc

five_drops :
    (n t k a : ℕ) (xs : List ℕ)
    → drop a (drop k (drop t (drop n (drop 1 xs)))) ≡ drop (1 + n + t + k + a) xs
five_drops n t k a xs =
    ap (λ l. drop a (drop k (drop t l))) (sym (drop-drop 1 n xs))
    ∙ ap (λ l. drop a (drop k l)) (sym (drop-drop (1 + n) t xs))
    ∙ ap (drop a) (sym (drop-drop (1 + n + t) k xs))
    ∙ sym (drop-drop (1 + n + t + k) a xs)

module _ {L P : ℕ} (p : PublishPacket L P) (s : Sendable p) where
  write_packet_id-at :
      (pre room : List ℕ) (off : ℕ)
      → off ≡ length pre
      → id_size p.qos ≤ length room
      → write_packet_id p (pre ++ room) off
        ≡ ok ((pre ++ id_bytes p.qos p.packet_id) ++ drop (id_size p.qos) room, off + id_size p.qos)
  unfolding write_packet_id
  write_packet_id-at pre room off e h = elim (HasId-cases p.qos p.packet_id s.id) [
    | inl (zero_qos, absent, no_size, no_bytes) ↦
        let z : off + 0 ≡ off = omega arith in
        rw (zero_qos, no_size, no_bytes, append-nil pre, z) refl
    | inr (k, qos, there, size, bytes, pos, small) ↦
        let room_2 : 2 ≤ length room = rw size at h in
        let fits : ltb (length (pre ++ room)) (off + 2) ≡ false =
          ge→ltb _ _ (omega (arith, length-append pre room)) in
        rw (qos, fits, size, bytes, there, store_u16-at pre room off k e room_2) refl
  ]

  pub remaining-le : remaining p ≤ max_variable_length
  remaining-le = omega (
    arith,
    s.topic.within,
    s.topic.fits,
    s.payload.within,
    s.payload.fits,
    id_size-le p.qos,
    length-as_slice p.payload s.payload,
  )

  -- The last steps of `encode`.
  abbrev add_payload : List ℕ → ℕ → Outcome ProtocolError (ℕ × List ℕ)
  add_payload buffer offset = do
    check (ltb (length buffer) (offset + length (as_slice p.payload)))
        (buffer_too_small (length buffer))
    buffer' ← store_all buffer offset (as_slice p.payload)
    ok (offset + length (as_slice p.payload), buffer')

  abbrev offset_of_payload : ℕ
  offset_of_payload =
      1 + variable_length_length (remaining p) + 2 + length (as_str p.topic_name) + id_size p.qos

  abbrev room_for_payload : List ℕ → List ℕ
  room_for_payload buffer = drop (id_size p.qos) (
      drop (2 + length (as_str p.topic_name))
        (drop (variable_length_length (remaining p)) (drop 1 buffer)))

  length-before_payload : offset_of_payload ≡ length (bytes_before_payload p)
  length-before_payload = omega (
    arith,
    length-append (bytes_before_id p) (id_bytes p.qos p.packet_id),
    length-append (bytes_before_topic p) (field_bytes (as_str p.topic_name)),
    length-length_bytes (remaining p),
    length-id_bytes p.qos p.packet_id s.id,
  )

  length-room_for_payload :
      (buffer : List ℕ) → length (room_for_payload buffer) ≡ length buffer - offset_of_payload
  length-room_for_payload buffer =
      let n = variable_length_length (remaining p) in
      let t = 2 + length (as_str p.topic_name) in
      omega (
        arith,
        length-drop 1 buffer,
        length-drop n (drop 1 buffer),
        length-drop t (drop n (drop 1 buffer)),
        length-drop (id_size p.qos) (drop t (drop n (drop 1 buffer))),
      )

  -- Everything before the payload is written if it fits.
  encode-add_payload :
      (buffer : List ℕ)
      → offset_of_payload ≤ length buffer
      → encode p buffer
        ≡ add_payload (bytes_before_payload p ++ room_for_payload buffer) offset_of_payload
  unfolding encode Text.len
  encode-add_payload buffer h =
      let n = variable_length_length (remaining p) in
      let t = as_str p.topic_name in
      let same = length-as_str p.topic_name s.topic in
      let room1 = drop 1 buffer in
      let room2 = drop n room1 in
      let room3 = drop (2 + length t) room2 in
      let l1 = length-drop 1 buffer in
      let l2 = length-drop n room1 in
      let l3 = length-drop (2 + length t) room2 in
      let q1 = header p ∷ [] in
      let q2 = bytes_before_topic p in
      let q3 = bytes_before_id p in
      let o2 : 1 + n ≡ length q2 = omega (arith, length-length_bytes (remaining p)) in
      let o3 : 1 + n + 2 + length t ≡ length q3 =
        omega (arith, o2, length-append q2 (field_bytes t)) in
      rw
        (
          gt→leb (length buffer) 0 (omega arith),
          store-at [] buffer 0 (header p) refl (omega arith),
          id_size-if p.qos,
          write_length-at q1 room1 (remaining p) 1 refl remaining-le (omega arith),
          write_string-at q2 room2 t (1 + n) o2 (omega arith) (omega arith),
          write_packet_id-at q3 room3 (1 + n + 2 + length t) o3 (omega arith),
        )
        refl

  -- The buffer behind the bytes of the packet is as it was.
  pub encode-publish_bytes :
      (buffer : List ℕ)
      → publish_size p ≤ length buffer
      → encode p buffer ≡ ok (publish_size p, publish_bytes p ++ drop (publish_size p) buffer)
  unfolding publish_size
  encode-publish_bytes buffer h =
      let n = variable_length_length (remaining p) in
      let t = as_str p.topic_name in
      let k = id_size p.qos in
      let a = as_slice p.payload in
      let same = length-as_str p.topic_name s.topic in
      let q4 = bytes_before_payload p in
      let room4 = room_for_payload buffer in
      let o4 = length-before_payload in
      let l4 = length-room_for_payload buffer in
      let total : 1 + n + (2 + length t) + k + length a ≡ 1 + n + remaining p = omega arith in
      encode-add_payload buffer (omega arith)
      ∙ rw
          (
            ge→ltb (length (q4 ++ room4)) (offset_of_payload + length a)
                (omega (arith, length-append q4 room4, o4)),
            store_all-at q4 room4 offset_of_payload a o4 (omega arith),
          )
          (pair (omega arith) (
            ap (λ r. publish_bytes p ++ r)
              (five_drops n (2 + length t) k (length a) buffer ∙ ap (λ m. drop m buffer) total)))

  -- A buffer with room for all but the payload is refused.
  pub encode-too_small :
      (buffer : List ℕ)
      → publish_size p ≤ length buffer + length (as_slice p.payload)
      → length buffer < publish_size p
      → encode p buffer ≡ err (buffer_too_small (length buffer))
  unfolding publish_size
  encode-too_small buffer h short =
      let q4 = bytes_before_payload p in
      let room4 = room_for_payload buffer in
      let same = length-as_str p.topic_name s.topic in
      let l4 = length-room_for_payload buffer in
      let o4 = length-before_payload in
      let whole : length (q4 ++ room4) ≡ length buffer =
        omega (arith, length-append q4 room4, o4) in
      encode-add_payload buffer (omega arith)
      ∙ rw
          (
            lt→ltb (length (q4 ++ room4)) (offset_of_payload + length (as_slice p.payload))
                (omega (arith, whole)),
            whole,
          )
          refl

  -- The slice that is sent.
  pub slice-publish_bytes :
      (rest : List ℕ) → slice (publish_bytes p ++ rest) 0 (publish_size p) ≡ ok (publish_bytes p)
  slice-publish_bytes rest =
      let whole = publish_bytes p ++ rest in
      let len : 0 + length (publish_bytes p) ≡ publish_size p =
        omega (arith, length-publish_bytes p s) in
      subst (λ k. slice whole 0 k ≡ ok (publish_bytes p)) len
        (slice-StandsAt whole rest 0 (publish_bytes p) refl (omega arith))
