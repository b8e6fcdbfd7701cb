-- ===== src/Samples/Wires.antt =====
-- Numbers and acknowledgements on the wire, on concrete values.
use picobroker.Base.{List, ℕ, [], ◌∷◌, arith}
use picobroker.Codec.Fixed.{
  encode_pub_ack, decode_pub_ack, encode_pub_rec, decode_pub_rec, encode_pub_rel, decode_pub_rel,
  encode_pub_comp, decode_pub_comp, encode_unsub_ack, decode_unsub_ack,
}
use picobroker.Codec.Fixed.RoundTrip.{DecodesTo, decode-encode_acks}
use picobroker.Wire.{write_variable_length}
use picobroker.Wire.Lengths.{ReadsBack, read-write_variable_length}

write_variable_length_example : ReadsBack 321 (write_variable_length 321 (0 ∷ 0 ∷ 0 ∷ 0 ∷ []))
write_variable_length_example = read-write_variable_length 321 0 0 0 0 [] (omega arith)

abbrev zeros : List ℕ
zeros = 0 ∷ 0 ∷ 0 ∷ 0 ∷ 0 ∷ []

decode_acks_example :
    DecodesTo decode_pub_ack 777 0x40 (0 ∷ []) (encode_pub_ack 777 zeros)
    × DecodesTo decode_pub_rec 777 0x50 (0 ∷ []) (encode_pub_rec 777 zeros)
    × DecodesTo decode_pub_rel 777 0x62 (0 ∷ []) (encode_pub_rel 777 zeros)
    × DecodesTo decode_pub_comp 777 0x70 (0 ∷ []) (encode_pub_comp 777 zeros)
    × DecodesTo decode_unsub_ack 777 0xB0 (0 ∷ []) (encode_unsub_ack 777 zeros)
decode_acks_example = decode-encode_acks 777 0 0 0 0 (0 ∷ []) (omega arith)
