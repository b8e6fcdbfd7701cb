-- ===== src/Lib.antt =====
-- picobroker: the MQTT broker core of the crate in `src/` (the `no_std` library) and parts of the
-- servers under `examples/` that run it, as definitions that can be run, with theorems about them.
--
-- The parts, and the file that models each one:
--   * Heapless: `src/protocol/heapless.rs`, `HeaplessVec`: an array of N slots and a u16 length.
--     `Heapless/Slots` has the lemmas on its loops, `Heapless/Laws` what each operation does.
--   * Text: `src/protocol/heapless.rs`, `HeaplessString`: an array of N bytes and a u8 length.
--   * Protocol and Packets: `src/protocol/` quality of service, packet types, connect flags and
--     return codes, and the 14 packets.
--   * Wire: `src/protocol/utils.rs`: integers, variable lengths, strings and binary fields.
--     `Wire/Fields` lists the bytes of a field, `Wire/Writes` writes them at an offset,
--     `Wire/Reads` reads them where they stand, and `Wire/Rounds` and `Lengths` are the variable
--     lengths.
--   * Codec: `encode` and `decode` of each packet (`Codec/Header`, `Fixed`, `Publish`,
--     `Subscribe`, `Connect`) and of `Packet` (`Codec/Packet`), from `src/protocol/packets/`.
--     `Codec/Publish/Bytes` lists the bytes of a PUBLISH packet; `Encoding`, `Decoding` and
--     `RoundTrip` beside it are about writing and reading them, as `Codec/Fixed/RoundTrip` is for
--     the packets of an id; `Codec/Subscribe/Filters` and `RoundTrip` are about SUBSCRIBE and
--     UNSUBSCRIBE.
--   * Topics: `src/topics.rs`. `Topics/Levels` is `LevelIterator` and `topic_matches`; `Topics`
--     the entries and the registry; `Topics/Subscribers`, `Entries`, `Registry`, `Delivery`,
--     `Unregister`, `Positions` and `Unsubscribe` their laws; `Topics/Subscriptions` has the
--     abstract set of subscriptions that the registry refines, `Topics/Interested` a part of it.
--   * Session: `src/session.rs`, a client's session, its expiry and its two queues;
--     `Session/Registry` is `SessionRegistry`, with its laws below it. `Session/Registry/Listing`
--     is about the lists of sessions that it gives.
--   * Broker: `src/broker.rs`, `PicoBroker`: its handlers; `Broker/Loop` is
--     `process_all_session_packets` and `get_sessions_with_pending_packets`. `Broker/Invariant`,
--     `Deliveries`, `Publishing`, `Removal`, `Loop/Processing`, `Draining` and `Pending` have its
--     laws, and `Broker/Reachable` runs sequences of its calls.
--   * Error and Config: `src/error.rs` and the const generics of `PicoBroker`.
--   * Tokio: `examples/tokio_mqtt_server/src/`, the server on TCP. `Tokio/Io` is `io.rs`, the
--     framing of packets, with `Lengths`, `Filling`, `Framing` and `Frames` about it;
--     `Tokio/State` is `state.rs`; `Tokio/Handler` is what `handle_connection` does with the
--     broker, with `Answers`, `Turns`, `Delivery`, `Connections` and `Channel` about
--     it;
--     `Tokio/Server` is `cleanup_task`, with `Cleanup` about it.
--   * Rp2040: `examples/rp2040_mqtt_server/src/`, of which `State` is the notification registry
--     and `Io` is `write_packet`, with `State/Notifying` and `Io/Writing` about them.
--   * Samples: concrete states, on which the theorems are applied.
--
-- The broker owns the two registries. A transport queues the packets of a client in the session's
-- receive queue; `process_all_session_packets` takes them off, and each handler reads and writes
-- the registries and queues answers in transmit queues, from which the transport takes them.
--
-- How the code is written down:
--   * A method that takes `&mut self` is a function from the object to `Step`: `done` with the
--     new object and the result, `fail` with the object as the error leaves it, or `crash` for a
--     panic. Other fallible functions give `Outcome`: `ok`, `err` or `panic`.
--   * Integers are natural numbers. An `as u8` or `as u16` cast is the remainder; an addition or
--     a subtraction on a fixed width that overflows is a panic, as in a build that checks
--     overflow. `saturating_sub` is the subtraction of natural numbers. A `usize` is taken to
--     have no bound.
--   * A `str` is the list of its bytes, and `Base/Utf8` is the test of `core::str::from_utf8`.
--     Masks and shifts by constants are written as quotients and remainders.
--   * A reference that `find` lends and that is written through is a write into the first slot
--     that passes the test.
--   * `match_loop` runs on fuel of the filter's length plus 2, since a filter of n bytes has at
--     most n + 1 levels; `topic_matches` gives `none` where the fuel runs out, on which
--     `get_subscribers` crashes. `drain_session` runs on fuel of the queue size plus 1, one round
--     for each packet that a queue can hold and one that finds it empty; to run out of it counts
--     as a crash. `dequeue_all` of the server runs on the same fuel.
--   * `BytesMut`, `DashMap` and the senders of channels are of other crates and parameters of the
--     server's definitions; `BytesMutLaws` and `DashMapLaws` say what is used of their
--     documentation. A socket is the list of what its next reads or writes give. The clock's
--     values are arguments.
--   * What a codec leaves in the output buffer when it returns an error is not recorded.
--
-- Not modelled: the `Display` and `Error` impls and the conversions between error types that only
-- wrap, the by-value iterator of the vector, the sockets, timers, logging and the scheduling of
-- the arms of `handle_connection` in the Tokio server, the rest of the server for the RP2040, and
-- the client under `examples/`.
pub mod Base
pub mod Heapless
pub mod Text
pub mod Protocol
pub mod Packets
pub mod Config
pub mod Error
pub mod Topics
pub mod Session
pub mod Broker
pub mod Wire
pub mod Codec
pub mod Tokio
pub mod Rp2040
pub mod Samples
