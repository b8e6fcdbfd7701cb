-- ===== src/Rp2040/Io/Writing.antt =====
-- `write_packet` sends the whole frame, however few bytes the socket takes at a time.
use picobroker.Base.{
  ℕ, zero, suc, ◌+◌, ◌≤◌, ◌<◌, ◌≡◌, sym, ap, ◌∙◌, arith, Option, none, some, List, [], ◌∷◌, ◌++◌,
  length, take, drop, append_assoc, append-nil, take-append-drop, length-drop,
}
use picobroker.Codec.Packet
use picobroker.Codec.Publish.Bytes.{Sendable, publish_bytes, publish_size, length-publish_bytes}
use picobroker.Codec.Publish.Encoding.{encode-publish_bytes, slice-publish_bytes}
use picobroker.Packets.{Packet, PublishPacket}
use picobroker.Rp2040.Io.{complete, write_loop, write_packet}

-- A socket that takes at least one byte at a time.
abbrev pub TakesSome : List (Option ℕ) → Type 0
TakesSome [] = Unit {0}
TakesSome (none ∷ socket) = ⊥
TakesSome (some n ∷ socket) = (0 < n) × TakesSome socket

pub write_loop-complete :
    (written : ℕ) (taken bytes : List ℕ) (socket : List (Option ℕ))
    → TakesSome socket
    → length bytes ≤ length socket
    → write_loop written taken bytes socket ≡ complete (taken ++ bytes)
unfolding write_loop
write_loop-complete written taken [] socket t h = ap complete (sym (append-nil taken))
write_loop-complete written taken (b ∷ bytes) [] t h = absurd (omega arith)
write_loop-complete written taken (b ∷ bytes) (none ∷ socket) t h = absurd t
write_loop-complete written taken (b ∷ bytes) (some zero ∷ socket) (pos, t) h = absurd (omega arith)
write_loop-complete written taken (b ∷ bytes) (some (suc n) ∷ socket) (pos, t) h =
    write_loop-complete (written + suc n) (taken ++ take (suc n) (b ∷ bytes)) (drop n bytes) socket
      t (omega (arith, length-drop n bytes))
    ∙ ap complete (
        append_assoc taken (take (suc n) (b ∷ bytes)) (drop n bytes)
        ∙ ap (λ k. taken ++ b ∷ k) (take-append-drop n bytes))

-- A PUBLISH packet that can be sent is written whole by write_packet of the server on the board,
-- if its buffer is long enough and the socket takes at least one byte at each of as many writes
-- as the packet has bytes.
pub write_packet-publish :
    {L P : ℕ} (p : PublishPacket L P) (buffer : List ℕ) (socket : List (Option ℕ))
    → Sendable p
    → publish_size p ≤ length buffer
    → TakesSome socket
    → publish_size p ≤ length socket
    → write_packet (Packet.publish p) buffer socket ≡ complete (publish_bytes p)
unfolding write_packet Packet.encode
write_packet-publish p buffer socket s fits t many =
    rw
      (
        write_packet,
        encode-publish_bytes p s buffer fits,
        slice-publish_bytes p s (drop (publish_size p) buffer),
      )
      (write_loop-complete 0 [] (publish_bytes p) socket t
        (omega (arith, length-publish_bytes p s)))
