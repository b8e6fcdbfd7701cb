-- ===== src/Rp2040/Io.antt =====
-- src/examples/rp2040_mqtt_server/src/io.rs: `write_packet`.
pub mod Writing
use picobroker.Base.{ℕ, zero, suc, Option, none, some, List, [], ◌∷◌, ◌++◌, ◌+◌, length, take, drop}
use picobroker.Base.Result.{Outcome, ok, err, panic, ◌>>=◌, or_err}
use picobroker.Codec.Packet
use picobroker.Packets.{Packet}
use picobroker.Protocol.{ProtocolError, incomplete_packet, buffer_too_small}
use picobroker.Wire.{slice}

-- How the loop of writes ends, with the bytes that the socket has taken: all of them, an error, or
-- it waits for the socket.
pub data Written : Type 0 where
  complete waits : List ℕ → Written
  broken : List ℕ → ProtocolError → Written
  crashed : Written

-- The loop on the bytes that are left. A socket is what its next writes give: how many bytes it
-- takes, or none for an error.
pub write_loop : ℕ → List ℕ → List ℕ → List (Option ℕ) → Written
write_loop written taken [] socket = complete taken
write_loop written taken (b ∷ bytes) [] = waits taken
write_loop written taken (b ∷ bytes) (none ∷ socket) = broken taken (buffer_too_small 0)
write_loop written taken (b ∷ bytes) (some zero ∷ socket) = broken taken (incomplete_packet written)
write_loop written taken (b ∷ bytes) (some (suc n) ∷ socket) =
    write_loop (written + suc n) (taken ++ take (suc n) (b ∷ bytes)) (drop n bytes) socket

pub write_packet : {L P : ℕ} → Packet L P → List ℕ → List (Option ℕ) → Written
unfolding write_loop
write_packet packet buffer socket =
    elim (do
      (size, buffer') ← or_err (Packet.encode packet buffer) (buffer_too_small 0)
      slice buffer' 0 size) [
        | panic ↦ crashed
        | err e ↦ broken [] e
        | ok bytes ↦ write_loop 0 [] bytes socket
      ]
