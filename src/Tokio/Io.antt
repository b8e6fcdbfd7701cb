-- ===== src/Tokio/Io.antt =====
-- src/examples/tokio_mqtt_server/src/io.rs
pub mod Lengths
pub mod Filling
pub mod Framing
pub mod Frames
use picobroker.Base.{
  ℕ, ◌+◌, ◌-◌, ◌*◌, ◌/◌, ◌%◌, Bool, true, false, Option, none, some, List, [], ◌∷◌, ltb, leb, ◌==◌,
  if◌then◌else◌, length, take, drop, replicate,
}
use picobroker.Base.Result.{Outcome, ok, err, panic, ◌>>=◌, Step, done, fail, crash, or_err}
use picobroker.Codec.Packet
use picobroker.Packets.{Packet}
use picobroker.Protocol.{ProtocolError, incomplete_packet, invalid_packet_length}
use picobroker.Wire.{slice}

-- The loop on the bytes from `idx` on; `total` is `buffer.len()`.
pub parse_length_loop : ℕ → List ℕ → ℕ → ℕ → ℕ → Outcome ProtocolError (ℕ × ℕ)
parse_length_loop total [] idx multiplier value = err (incomplete_packet total)
parse_length_loop total (byte ∷ rest) idx multiplier value =
    let idx' = idx + 1 in
    let value' = value + byte % 128 * multiplier in
    let multiplier' = multiplier * 128 in
    let more = parse_length_loop total rest idx' multiplier' value' in
    if byte / 128 % 2 == 0
    then ok (value', idx' - 1)
    else if ltb (128 * 128 * 128) multiplier'
    then err (invalid_packet_length 4 5)
    else more

pub parse_remaining_length : List ℕ → Outcome ProtocolError (ℕ × ℕ)
unfolding parse_length_loop
parse_remaining_length buffer = parse_length_loop (length buffer) (drop 1 buffer) 1 1 0

-- The buffer type of the `bytes` crate: its bytes, what `read_buf` puts at their end, `advance`.
pub record BytesMut : Type 1 where
  pub Buffer : Type 0
  pub bytes : Buffer → List ℕ
  pub extend : Buffer → List ℕ → Buffer
  pub advance : Buffer → ℕ → Buffer

-- How a loop of reads ends: the bytes are there, or a read gave none.
pub data Reads (A : Type 0) : Type 0 where
  filled ended : A → List (List ℕ) → Reads A

module _ (B : BytesMut) where
  -- The reads until there are `target` bytes. A socket is what its next reads give: no bytes at
  -- the end of the stream and after an error.
  pub read_until : ℕ → B.Buffer → List (List ℕ) → Reads B.Buffer
  read_until target buffer [] =
      if leb target (length (B.bytes buffer)) then filled buffer [] else ended buffer []
  read_until target buffer ([] ∷ socket) =
      if leb target (length (B.bytes buffer))
      then filled buffer ([] ∷ socket)
      else ended buffer socket
  read_until target buffer ((byte ∷ chunk) ∷ socket) =
      if leb target (length (B.bytes buffer))
      then filled buffer ((byte ∷ chunk) ∷ socket)
      else read_until target (B.extend buffer (byte ∷ chunk)) socket

  -- `Packet::decode(&buffer[..total_len])?`, and then `advance`.
  pub take_packet :
      {L P : ℕ}
      → ℕ
      → B.Buffer
      → List (List ℕ)
      → Step (B.Buffer × List (List ℕ)) ProtocolError (Option (Packet L P))
  take_packet total_len buffer socket =
      elim (do frame ← slice (B.bytes buffer) 0 total_len; Packet.decode frame) [
        | panic ↦ crash
        | err e ↦ fail (buffer, socket) e
        | ok packet ↦ done (B.advance buffer total_len, socket) (some packet)
      ]

  pub read_body :
      {L P : ℕ}
      → B.Buffer
      → List (List ℕ)
      → ℕ
      → Step (B.Buffer × List (List ℕ)) ProtocolError (Option (Packet L P))
  unfolding read_until take_packet
  read_body buffer socket total_len = elim (read_until total_len buffer socket) [
    | ended buffer' socket' ↦ fail (buffer', socket') (incomplete_packet (length (B.bytes buffer')))
    | filled buffer' socket' ↦ take_packet total_len buffer' socket'
  ]

  pub read_length :
      {L P : ℕ}
      → B.Buffer
      → List (List ℕ)
      → Step (B.Buffer × List (List ℕ)) ProtocolError (Option (Packet L P))
  unfolding read_body
  read_length buffer socket = elim (parse_remaining_length (B.bytes buffer)) [
    | panic ↦ crash
    | err e ↦ fail (buffer, socket) e
    | ok (remaining_len, var_len_bytes) ↦
        read_body buffer socket (1 + var_len_bytes + remaining_len)
  ]

  pub read_packet :
      {L P : ℕ}
      → B.Buffer
      → List (List ℕ)
      → Step (B.Buffer × List (List ℕ)) ProtocolError (Option (Packet L P))
  unfolding read_length
  read_packet buffer socket = elim (read_until 2 buffer socket) [
    | ended buffer' socket' ↦ done (buffer', socket') none
    | filled buffer' socket' ↦ read_length buffer' socket'
  ]

-- The one error of `encode_frame`.
pub data IoError : Type 0 where
  invalid_data : IoError

unfoldable pub encode_frame : {L P : ℕ} → Packet L P → Outcome IoError (List ℕ)
encode_frame {L} {P} packet =
    or_err (do (size, buffer) ← Packet.encode packet (replicate (5 + P + L) 0); slice buffer 0 size)
      invalid_data
