-- ===== src/Samples/Boards.antt =====
-- The server on the board, with a socket that takes few bytes at a time and two connections.
use picobroker.Base.{
  ℕ, Bool, true, false, Option, some, ◌<◌, ◌≡◌, refl, List, [], ◌∷◌, arith, replicate,
}
use picobroker.Codec.Publish.Bytes.{publish_bytes, publish_size}
use picobroker.Heapless.{as_slice}
use picobroker.Packets.{publish}
use picobroker.Wire.{variable_length_length}
use picobroker.Rp2040.Io.{complete, write_packet}
use picobroker.Rp2040.Io.Writing.{TakesSome, write_packet-publish}
use picobroker.Rp2040.State.{Channel, NotificationRegistry, register_session, notify_session}
use picobroker.Rp2040.State.Notifying.{ChannelLaws, Wakes, notify-register_session}
use picobroker.Samples.Data.{message}
use picobroker.Samples.Messages.{message-Sendable}

abbrev tx_buffer : List ℕ
tx_buffer = replicate 16 0

abbrev slow_socket : List (Option ℕ)
slow_socket = replicate 8 (some 1)

one : 0 < 1
one = omega arith

slow_socket-TakesSome : TakesSome slow_socket
slow_socket-TakesSome = (one, (one, (one, (one, (one, (one, (one, (one, tt))))))))

write_packet_example :
    write_packet (publish message) tx_buffer slow_socket ≡ complete (publish_bytes message)
unfolding publish_size variable_length_length as_slice
write_packet_example =
    write_packet-publish message tx_buffer slow_socket message-Sendable (omega arith)
      slow_socket-TakesSome (omega arith)

-- A channel is whether it has a signal.
abbrev channel : Channel
channel = record { Signals = Bool; try_send = λ s. true; has_signal = λ s. s }

channel-ChannelLaws : ChannelLaws channel
channel-ChannelLaws = record { has_signal-try_send = λ s. refl }

abbrev two_channels : NotificationRegistry channel 2
two_channels = record { channels = false ∷ false ∷ []; session_ids = 5 ∷ 0 ∷ [] }

notify_session_example :
    Wakes channel-ChannelLaws two_channels 1 (notify_session (register_session two_channels 1 7) 7)
notify_session_example =
    notify-register_session channel-ChannelLaws two_channels 1 7
      (record { channels = refl; ids = refl }) (omega arith) refl
