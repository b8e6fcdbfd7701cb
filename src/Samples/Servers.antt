-- ===== src/Samples/Servers.antt =====
-- The server on concrete buffers, sockets and maps.
use picobroker.Base.{some, ℕ, ◌≡◌, ◌++◌, inl, refl, List, [], ◌∷◌, arith, replicate}
use picobroker.Broker.{PicoBroker}
use picobroker.Packets.{ping_req}
use picobroker.Base.Result.{err, ok, done, fail}
use picobroker.Broker.Loop.{process_all_session_packets}
use picobroker.Broker.Loop.Draining.{HandlesAll, process_all_session_packets-HandlesAll}
use picobroker.Codec.Packet
use picobroker.Codec.Publish
use picobroker.Codec.Publish.Bytes.{publish_bytes, publish_size}
use picobroker.Codec.Publish.RoundTrip
use picobroker.Codec.Publish.RoundTrip.{decode-encode}
use picobroker.Error.{BrokerError}
use picobroker.Heapless.{as_slice}
use picobroker.Text.{as_str}
use picobroker.Base.Utf8.{is_utf8}
use picobroker.Packets.{publish}
use picobroker.Protocol.{incomplete_packet}
use picobroker.Session.Registry.{find_session}
use picobroker.Session.Registry.Listing.{holds}
use picobroker.Wire.{read_variable_length, variable_length_length}
use picobroker.Wire.Fields.{length_bytes}
use picobroker.Tokio.Io.{parse_remaining_length, read_packet, encode_frame, invalid_data}
use picobroker.Tokio.Io.Lengths.{SameResult, parse-read_variable_length}
use picobroker.Tokio.Io.Framing.{Delivers, read_packet-Delivers, read_packet-split}
use picobroker.Tokio.Io.Frames.{Arrives, read_packet-encode_frame, encode_frame-refused}
use picobroker.Tokio.State.{ServerState, generate_session_id}
use picobroker.Tokio.Handler.{
  receive_packet, open_connection, close_connection, send_packets, default_config,
}
use picobroker.Tokio.Handler.Delivery.{Passes, receive-Passes}
use picobroker.Tokio.Handler.Turns.{Answers, works, receive_packet-Answers}
use picobroker.Tokio.Handler.Connections.{
  Opens, open_connection-Opens, Closes, close_connection-forgets,
}
use picobroker.Tokio.Handler.{sent, blocked}
use picobroker.Tokio.Handler.Channel.{encoded, send_packets_lem}
use picobroker.Packets.{Packet, ping_resp}
use picobroker.Codec.Packet.{encode}
use picobroker.Codec.Fixed.{encode_ping_resp}
use picobroker.Codec.Header.{header_byte, validate_buffer_size}
use picobroker.Protocol.{type_bits}
use picobroker.Wire.{store, slice}
use picobroker.Base.{leb, if◌then◌else◌}
use picobroker.Tokio.Server.{MqttServer, cleanup}
use picobroker.Tokio.Server.Cleanup.{Drops, is_stale, cleanup-Drops}
use picobroker.Broker.Invariant
use picobroker.Session.{Session}
use picobroker.Session.Registry.Slots.{SessionIsValid}
use picobroker.Samples.Data.{
  config, broker, broker-IsValid, message, topics, topics-IsValid, session,
}
use picobroker.Samples.Messages.{
  bytes_mut, bytes_mut-BytesMutLaws, dash_map, dash_map-DashMapLaws, message-Sendable, full_message,
  full_message-Sendable,
}

process_all_session_packets_drained : HandlesAll (process_all_session_packets broker)
process_all_session_packets_drained = process_all_session_packets-HandlesAll broker broker-IsValid

abbrev buffer_9 : List ℕ
buffer_9 = replicate 9 0

decode-encode_publish : RoundTrip.ReadsBack message (Publish.encode message buffer_9)
unfolding publish_size variable_length_length as_slice
decode-encode_publish = decode-encode message buffer_9 message-Sendable (omega arith)

parse_remaining_length_example :
    SameResult (parse_remaining_length (16 ∷ 193 ∷ 2 ∷ [])) (read_variable_length (193 ∷ 2 ∷ []))
parse_remaining_length_example = parse-read_variable_length 16 (193 ∷ 2 ∷ [])

-- A PingReq and the first byte of what follows, in three reads.
abbrev ping_reads : List (List ℕ)
ping_reads = (192 ∷ []) ∷ (0 ∷ []) ∷ (224 ∷ []) ∷ []

read_packet_example :
    Delivers bytes_mut bytes_mut-BytesMutLaws
      (224 ∷ [])
      (Packet.decode {L = 4} {P = 4} (192 ∷ (length_bytes 0 ++ [])))
      (read_packet bytes_mut {L = 4} {P = 4} [] ping_reads)
read_packet_example =
    read_packet-Delivers bytes_mut bytes_mut-BytesMutLaws 4 4 [] ping_reads 192 0 [] (224 ∷ []) tt
      (omega arith) refl (inl (omega arith)) refl

read_packet_split_example :
    read_packet bytes_mut {L = 4} {P = 4} (48 ∷ 193 ∷ []) ((2 ∷ 0 ∷ []) ∷ [])
    ≡ fail (48 ∷ 193 ∷ [], (2 ∷ 0 ∷ []) ∷ []) (incomplete_packet 2)
read_packet_split_example =
    read_packet-split bytes_mut bytes_mut-BytesMutLaws 4 4 (48 ∷ 193 ∷ []) ((2 ∷ 0 ∷ []) ∷ []) 48
      193 refl (omega arith) (omega arith)

encode_frame_example :
    (encode_frame (publish message) ≡ ok (publish_bytes message))
    × Arrives bytes_mut message
        (7 ∷ [])
        (read_packet bytes_mut [] ((publish_bytes message ++ 7 ∷ []) ∷ []))
unfolding publish_size variable_length_length as_slice as_str is_utf8
encode_frame_example =
    read_packet-encode_frame message message-Sendable bytes_mut bytes_mut-BytesMutLaws []
      ((publish_bytes message ++ 7 ∷ []) ∷ []) (7 ∷ []) (omega arith) tt (inl (omega arith)) refl

encode_frame_full : encode_frame (publish full_message) ≡ err invalid_data
unfolding publish_size variable_length_length as_slice
encode_frame_full =
    encode_frame-refused full_message full_message-Sendable (omega arith) (omega arith)

receive_packet_example :
    Answers {E = BrokerError} 7
      (works broker 7 (publish message) 5)
      (receive_packet broker 7 (publish message) 5)
receive_packet_example =
    receive_packet-Answers BrokerError broker 7 (publish message) 5 broker-IsValid

-- A second session, with an answer in its transmit queue too.
abbrev second : Session config
second = record session { session_id = 8 }

abbrev two_sessions : PicoBroker config
two_sessions = record {
  topics = topics;
  sessions = record { sessions = record { length = 2; slots = some session ∷ some second ∷ [] } };
}

second-IsValid : SessionIsValid second
unfolding as_slice
second-IsValid = record {
  rx = record { array = refl; within = omega arith; fits = omega arith };
  tx = record { array = refl; within = omega arith; fits = omega arith };
  rx_packets = tt;
  tx_packets = tt;
}

first-IsValid : SessionIsValid session
unfolding as_slice
first-IsValid = record {
  rx = record { array = refl; within = omega arith; fits = omega arith };
  tx = record { array = refl; within = omega arith; fits = omega arith };
  rx_packets = tt;
  tx_packets = tt;
}

two_sessions-IsValid : Invariant.IsValid two_sessions
unfolding as_slice
two_sessions-IsValid = record {
  topics = topics-IsValid;
  sessions = record {
    vec = record { array = refl; within = omega arith; fits = omega arith };
    slots = (first-IsValid, refl, (second-IsValid, refl, tt));
  };
}

receive_notification_example :
    Passes {E = BrokerError} 7 8
      (works two_sessions 7 ping_req 5)
      (receive_packet two_sessions 7 ping_req 5)
receive_notification_example =
    receive-Passes BrokerError two_sessions 7 8 ping_req 5 two_sessions-IsValid refl

abbrev state : ServerState dash_map ℕ
state = record {
  connections = dash_map.empty;
  session_id_gen = 0;
  notification_senders = dash_map.empty;
}

open_connection_example :
    Opens dash_map-DashMapLaws state broker default_config 3
      (generate_session_id state 100).1
      5
      (open_connection state broker default_config 3 100 5)
open_connection_example =
    open_connection-Opens dash_map-DashMapLaws state broker default_config 3 100 5 broker-IsValid
      (omega arith)

close_connection_example :
    Closes dash_map-DashMapLaws state broker 7 (close_connection {E = BrokerError} state broker 7)
close_connection_example =
    close_connection-forgets dash_map-DashMapLaws BrokerError state broker 7 broker-IsValid

-- The first packet is refused by encode_frame, and the frame of the second is sent.
abbrev answers : List (Packet 4 4)
answers = publish full_message ∷ ping_resp ∷ []

answers-encoded : encoded answers ≡ some ((208 ∷ 0 ∷ []) ∷ [])
unfolding encode_frame encode encode_ping_resp header_byte type_bits validate_buffer_size store
    slice publish_size as_slice variable_length_length
answers-encoded =
    rw (encode_frame-refused full_message full_message-Sendable (omega arith) (omega arith)) refl

send_packets_example :
    send_packets 2 ((1 ∷ []) ∷ []) answers
    ≡ (if leb 2 2 then sent ((1 ∷ []) ∷ (208 ∷ 0 ∷ []) ∷ []) else blocked)
send_packets_example = send_packets_lem 2 ((1 ∷ []) ∷ []) answers (omega arith) answers-encoded

abbrev server : MqttServer dash_map ℕ config
server = record {
  state = state;
  broker = broker;
  config = record {
    default_keep_alive_secs = 60;
    frame_channel_capacity = 32;
    cleanup_interval_secs = 5;
  };
}

cleanup_example :
    (s' : MqttServer dash_map ℕ config) × (cleanup {E = BrokerError} server 91_000_000_000
      ≡ done s' tt)
    × Drops dash_map-DashMapLaws
        (λ j. holds (is_stale 91_000_000_000) (find_session broker.sessions j))
        server
        s'
cleanup_example =
    cleanup-Drops dash_map-DashMapLaws BrokerError server 91_000_000_000 broker-IsValid
