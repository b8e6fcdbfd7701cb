-- ===== src/Wire.antt =====
-- src/protocol/utils.rs: the numbers, texts and binary fields of a packet. Masks and shifts by a
-- constant are written as `%`, `/` and `*`; bits that cannot overlap are joined by `+`.
pub mod Rounds
pub mod Lengths
pub mod Fields
pub mod Reads
pub mod Writes
use picobroker.Base.{
  ℕ, zero, suc, ◌+◌, ◌-◌, ◌*◌, ◌/◌, ◌%◌, ◌^◌, Bool, true, false, ◌||◌, Option, none, some, List, [],
  ◌∷◌, ltb, ◌==◌, if◌then◌else◌, length, get_elem?, set, take, drop, overwrite,
}
use picobroker.Base.Result.{Outcome, ok, err, panic, ◌>>=◌, ◌>>◌, check}
use picobroker.Base.Utf8.{is_utf8}
use picobroker.Protocol.{
  ProtocolError, buffer_too_small, incomplete_packet, invalid_packet_length, invalid_utf8_string,
}

abbrev pub max_variable_length : ℕ
max_variable_length = 268_435_455

-- `bytes[i]`, `&bytes[n..]`, `&bytes[from..to]` and `buffer[i] = v` on a slice.
unfoldable pub byte_at : List ℕ → ℕ → Outcome ProtocolError ℕ
byte_at bytes i = elim (get_elem? bytes i) [ none ↦ panic | some b ↦ ok b ]

unfoldable pub slice_from : List ℕ → ℕ → Outcome ProtocolError (List ℕ)
slice_from bytes n = if ltb (length bytes) n then panic else ok (drop n bytes)

unfoldable pub slice : List ℕ → ℕ → ℕ → Outcome ProtocolError (List ℕ)
slice bytes start end =
    if ltb end start || ltb (length bytes) end
    then panic
    else ok (take (end - start) (drop start bytes))

unfoldable pub store : List ℕ → ℕ → ℕ → Outcome ProtocolError (List ℕ)
store buffer i v = if ltb i (length buffer) then ok (set buffer i v) else panic

-- `buffer[offset..offset + len].copy_from_slice(bytes)`
unfoldable pub store_all : List ℕ → ℕ → List ℕ → Outcome ProtocolError (List ℕ)
store_all buffer i bytes =
    if ltb (length buffer) (i + length bytes) then panic else ok (overwrite buffer i bytes)

unfoldable pub variable_length_length : ℕ → ℕ
variable_length_length value =
    if ltb value 128 then 1 else if ltb value 16384 then 2 else if ltb value 2097152 then 3 else 4

-- The loop on the bytes that are left; `total` is `bytes.len()`.
unfoldable pub read_length_loop : ℕ → List ℕ → ℕ → ℕ → ℕ → Outcome ProtocolError (ℕ × ℕ)
read_length_loop total [] multiplier value bytes_read = err (incomplete_packet total)
read_length_loop total (byte ∷ rest) multiplier value bytes_read =
    let value' = value + byte % 128 * multiplier in
    let multiplier' = multiplier * 128 in
    let more = read_length_loop total rest multiplier' value' (bytes_read + 1) in
    if ltb max_variable_length value'
    then err (invalid_packet_length max_variable_length value')
    else if ltb (128 * 128 * 128 * 128) multiplier'
    then err (invalid_packet_length max_variable_length value')
    else if byte / 128 % 2 == 0
    then ok (value', bytes_read + 1)
    else more

-- The value and the number of bytes that it takes.
unfoldable pub read_variable_length : List ℕ → Outcome ProtocolError (ℕ × ℕ)
unfolding read_length_loop
read_variable_length bytes = read_length_loop (length bytes) bytes 1 0 0

-- The loop on the part of the buffer that is not written; the number of bytes and that part after.
pub write_length_loop : ℕ → ℕ → ℕ → List ℕ → Outcome ProtocolError (ℕ × List ℕ)
write_length_loop size encoded bytes_written [] = err (buffer_too_small size)
write_length_loop size encoded bytes_written (old ∷ rest) =
    let byte = encoded % 128 in
    let encoded' = encoded / 128 in
    let more = write_length_loop size encoded' (bytes_written + 1) rest in
    if encoded' == 0
    then ok (bytes_written + 1, byte ∷ rest)
    else do (n, rest') ← more; ok (n, (byte + 128) ∷ rest')

unfoldable pub write_variable_length : ℕ → List ℕ → Outcome ProtocolError (ℕ × List ℕ)
unfolding write_length_loop
write_variable_length value buffer =
    if ltb max_variable_length value
    then err (invalid_packet_length max_variable_length value)
    else write_length_loop (length buffer) value 0 buffer

-- `u16::from_be_bytes` of the bytes at `i`
unfoldable pub read_u16 : List ℕ → ℕ → Outcome ProtocolError ℕ
unfolding byte_at
read_u16 bytes i = do hi ← byte_at bytes i; lo ← byte_at bytes (i + 1); ok (hi * 256 + lo)

-- `to_be_bytes` of a u16, stored at `i`
unfoldable pub store_u16 : List ℕ → ℕ → ℕ → Outcome ProtocolError (List ℕ)
unfolding store
store_u16 buffer i n = do buffer' ← store buffer i (n / 256 % 256); store buffer' (i + 1) (n % 256)

-- A field and the offset behind it.
unfoldable pub read_binary : List ℕ → ℕ → Outcome ProtocolError (List ℕ × ℕ)
unfolding read_u16 slice
read_binary bytes offset = do
  check (ltb (length bytes) (offset + 2)) (incomplete_packet (length bytes))
  len ← read_u16 bytes offset
  let start = offset + 2
  check (ltb (length bytes) (start + len)) (incomplete_packet (length bytes))
  field ← slice bytes start (start + len)
  ok (field, start + len)

unfoldable pub read_string : List ℕ → ℕ → Outcome ProtocolError (List ℕ × ℕ)
unfolding read_u16 slice
read_string bytes offset = do
  check (ltb (length bytes) (offset + 2)) (incomplete_packet (length bytes))
  len ← read_u16 bytes offset
  let start = offset + 2
  check (ltb (length bytes) (start + len)) (incomplete_packet (length bytes))
  str_bytes ← slice bytes start (start + len)
  if is_utf8 str_bytes then ok (str_bytes, start + len) else err invalid_utf8_string

-- `len as u16` drops the high bits.
unfoldable pub write_binary : List ℕ → List ℕ → ℕ → Outcome ProtocolError (List ℕ × ℕ)
unfolding store_u16 store_all
write_binary field buffer offset = do
  check (ltb (length buffer) (offset + 2 + length field)) (buffer_too_small (length buffer))
  buffer1 ← store_u16 buffer offset (length field % 2 ^ 16)
  buffer2 ← store_all buffer1 (offset + 2) field
  ok (buffer2, offset + 2 + length field)

unfoldable pub write_string : List ℕ → List ℕ → ℕ → Outcome ProtocolError (List ℕ × ℕ)
unfolding store_u16 store_all
write_string s buffer offset = do
  check (ltb (length buffer) (offset + 2 + length s)) (buffer_too_small (length buffer))
  buffer1 ← store_u16 buffer offset (length s % 2 ^ 16)
  buffer2 ← store_all buffer1 (offset + 2) s
  ok (buffer2, offset + 2 + length s)

-- `write_variable_length(value, &mut buffer[offset..])?` and `offset += …`
unfoldable pub write_length_at : ℕ → List ℕ → ℕ → Outcome ProtocolError (List ℕ × ℕ)
unfolding slice_from
write_length_at value buffer offset = do
  tail ← slice_from buffer offset
  (n, tail') ← write_variable_length value tail
  ok (overwrite buffer offset tail', offset + n)
