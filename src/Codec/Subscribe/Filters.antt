-- ===== src/Codec/Subscribe/Filters.antt =====
-- The part that SUBSCRIBE and UNSUBSCRIBE share: the packet id and the topic filter.
use picobroker.Base.{
  ℕ, ◌+◌, ◌-◌, ◌*◌, ◌/◌, ◌%◌, ◌≤◌, ◌<◌, ◌≡◌, refl, ap, ◌∙◌, subst, true, false, List, [], ◌∷◌, ◌++◌,
  arith, ltb, leb, gt→leb, ge→ltb, ◌==◌, ne→==, length, drop, append_assoc, length-append,
  length-drop,
}
use picobroker.Base.Result.{ok}
use picobroker.Base.Utf8.{is_utf8}
use picobroker.Packets.{TopicName}
use picobroker.Protocol.{PacketType, type_bits}
use picobroker.Text
use picobroker.Text.{as_str}
use picobroker.Text.Laws.{length-as_str, as_str-IsValid}
use picobroker.Wire.{max_variable_length, variable_length_length, byte_at}
use picobroker.Wire.Fields.{u16_bytes, field_bytes, length_bytes, length-length_bytes}
use picobroker.Wire.Writes.{store-at, store_u16-at, write_string-at, write_length-at}
use picobroker.Wire.Reads.{
  StandsAt, StandsAt-after, StandsAt-length, slice_from-StandsAt, read_u16-StandsAt,
  read_string-StandsAt, read_variable_length_lem,
}
use picobroker.Codec.Subscribe.{encode_filter, decode_filter}
use picobroker.Codec.Publish.Decoding.{try_from-as_str}

module _ {L : ℕ} (t : PacketType) (id : ℕ) (f : TopicName L) (remaining : ℕ) where
  abbrev pub header : ℕ
  header = type_bits t * 16 + 2

  -- The offset behind the filter.
  abbrev pub filter_end : ℕ
  filter_end = 1 + variable_length_length remaining + 2 + 2 + length (as_str f)

  abbrev pub filter_bytes : List ℕ
  filter_bytes = ((header ∷ length_bytes remaining) ++ u16_bytes id) ++ field_bytes (as_str f)

  abbrev pub filter_room : List ℕ → List ℕ
  filter_room buffer =
      drop (2 + length (as_str f))
        (drop 2 (drop (variable_length_length remaining) (drop 1 buffer)))

  pub length-filter_room :
      (buffer : List ℕ) → length (filter_room buffer) ≡ length buffer - filter_end
  length-filter_room buffer =
      let n = variable_length_length remaining in
      omega (
        arith,
        length-drop 1 buffer,
        length-drop n (drop 1 buffer),
        length-drop 2 (drop n (drop 1 buffer)),
        length-drop (2 + length (as_str f)) (drop 2 (drop n (drop 1 buffer))),
      )

  pub encode_filter-bytes :
      (buffer : List ℕ)
      → Text.IsValid f
      → remaining ≤ max_variable_length
      → filter_end ≤ length buffer
      → encode_filter t id f remaining buffer ≡ ok (filter_bytes ++ filter_room buffer, filter_end)
  unfolding encode_filter
  encode_filter-bytes buffer v small h =
      let n = variable_length_length remaining in
      let s = as_str f in
      let s_len = length-as_str f v in
      let room1 = drop 1 buffer in
      let room2 = drop n room1 in
      let room3 = drop 2 room2 in
      let l1 = length-drop 1 buffer in
      let l2 = length-drop n room1 in
      let l3 = length-drop 2 room2 in
      let q1 = header ∷ [] in
      let q2 = header ∷ length_bytes remaining in
      let q3 = q2 ++ u16_bytes id in
      let o2 : 1 + n ≡ length q2 = omega (arith, length-length_bytes remaining) in
      let o3 : 1 + n + 2 ≡ length q3 = omega (arith, o2, length-append q2 (u16_bytes id)) in
      let inside : ltb (length (q2 ++ room2)) (1 + n + 2) ≡ false =
        ge→ltb _ _ (omega (arith, length-append q2 room2)) in
      rw
        (
          encode_filter,
          gt→leb (length buffer) 0 (omega arith),
          store-at [] buffer 0 header refl (omega arith),
          write_length-at q1 room1 remaining 1 refl small (omega arith),
          inside,
          store_u16-at q2 room2 (1 + n) id o2 (omega arith),
          write_string-at q3 room3 s (1 + n + 2) o3 (omega arith) (omega arith),
        )
        refl

  -- The bytes of the filter's part, one field behind the other, and what follows them.
  filter_fields : List ℕ → List ℕ
  filter_fields rest =
      header ∷ (length_bytes remaining ++ (u16_bytes id ++ (field_bytes (as_str f) ++ rest)))

  filter_bytes-fields : (rest : List ℕ) → filter_bytes ++ rest ≡ filter_fields rest
  unfolding filter_fields
  filter_bytes-fields rest =
      append_assoc ((header ∷ length_bytes remaining) ++ u16_bytes id) (field_bytes (as_str f)) rest
      ∙ append_assoc (header ∷ length_bytes remaining) (u16_bytes id)
          (field_bytes (as_str f) ++ rest)

  pub length-filter_bytes : Text.IsValid f → length filter_bytes ≡ filter_end
  length-filter_bytes v = omega (
    arith,
    length-append ((header ∷ length_bytes remaining) ++ u16_bytes id) (field_bytes (as_str f)),
    length-append (header ∷ length_bytes remaining) (u16_bytes id),
    length-length_bytes remaining,
  )

  decode_filter-fields :
      (rest : List ℕ)
      → Text.IsValid f
      → 0 < f.length
      → remaining ≤ max_variable_length
      → 0 < id
      → id < 65536
      → (header / 16 % 16 == type_bits t) ≡ true
      → (name : TopicName L) × (decode_filter t (filter_fields rest)
          ≡ ok (id, name, remaining, 1 + variable_length_length remaining, filter_end))
        × (as_str name ≡ as_str f)
  unfolding decode_filter filter_fields byte_at
  decode_filter-fields rest v named small pos fits type_ok =
      let n = variable_length_length remaining in
      let s = as_str f in
      let s_len = length-as_str f v in
      let r2 = field_bytes s ++ rest in
      let r1 = u16_bytes id ++ r2 in
      let bytes = header ∷ (length_bytes remaining ++ r1) in
      let at1 : StandsAt bytes 1 (length_bytes remaining) r1 = refl in
      let at2 : StandsAt bytes (1 + n) (u16_bytes id) r2 =
        subst (λ m. drop (1 + m) bytes ≡ r1) (length-length_bytes remaining)
          (StandsAt-after bytes 1 (length_bytes remaining) r1 at1) in
      let l2 : 1 + n ≤ length bytes =
        omega (arith, length-append (length_bytes remaining) r1, length-length_bytes remaining) in
      let whole2 = StandsAt-length bytes r2 (1 + n) (u16_bytes id) at2 l2 in
      let at3 : StandsAt bytes (1 + n + 2) (field_bytes s) rest =
        StandsAt-after bytes (1 + n) (u16_bytes id) r2 at2 in
      let tail = slice_from-StandsAt bytes r1 1 (length_bytes remaining) at1 (omega arith) in
      let var = read_variable_length_lem remaining r1 small in
      let inside : ltb (length bytes) (1 + n + 2) ≡ false = ge→ltb _ _ (omega (arith, whole2)) in
      let pid = read_u16-StandsAt bytes r2 (1 + n) id at2 fits in
      let not_zero : (id == 0) ≡ false = ne→== id 0 (λ z. omega arith) in
      let str =
        read_string-StandsAt bytes rest (1 + n + 2) s at3 (omega (arith, whole2)) (omega arith)
          (ap is_utf8 (as_str-IsValid f v) ∙ v.text) in
      let not_empty : (length s == 0) ≡ false = ne→== (length s) 0 (λ z. omega arith) in
      let (name, stored, _, same) = try_from-as_str f v in
      let some_bytes : leb (length bytes) 0 ≡ false = gt→leb _ _ (omega arith) in
      (
        name,
        rw
            (
              decode_filter, some_bytes, type_ok, tail, var, inside, pid, not_zero, str, not_empty,
              stored,
            )
            refl,
        same,
      )

  pub decode_filter-bytes :
      (rest : List ℕ)
      → Text.IsValid f
      → 0 < f.length
      → remaining ≤ max_variable_length
      → 0 < id
      → id < 65536
      → (header / 16 % 16 == type_bits t) ≡ true
      → (name : TopicName L) × (decode_filter t (filter_bytes ++ rest)
          ≡ ok (id, name, remaining, 1 + variable_length_length remaining, filter_end))
        × (as_str name ≡ as_str f)
  decode_filter-bytes rest v named small pos fits type_ok =
      let (name, e, same) = decode_filter-fields rest v named small pos fits type_ok in
      (name, ap (decode_filter t) (filter_bytes-fields rest) ∙ e, same)
