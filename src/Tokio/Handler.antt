-- ===== src/Tokio/Handler.antt =====
-- src/examples/tokio_mqtt_server/src/handler.rs: what `handle_connection` does with the broker.
pub mod Answers
pub mod Turns
pub mod Connections
pub mod Channel
pub mod Delivery
use picobroker.Base.{
  ℕ, zero, suc, Bool, true, false, Option, none, some, List, [], ◌∷◌, ◌++◌, ltb, length,
  if◌then◌else◌,
}
use picobroker.Base.Result.{Outcome, ok, err, panic, Step, done, fail, crash, then_step}
use picobroker.Broker.{
  PicoBroker, register_new_session, mark_session_disconnected, remove_session,
  queue_packet_received_from_client, dequeue_packet_to_send_to_client,
}
use picobroker.Broker.Loop.{process_all_session_packets, get_sessions_with_pending_packets}
use picobroker.Config.{Config}
use picobroker.Error.{BrokerError}
use picobroker.Heapless.{as_slice}
use picobroker.Packets
use picobroker.Session.{Packet}
use picobroker.Tokio.Io.{encode_frame}
use picobroker.Tokio.State.{
  DashMap, ServerState, register_notification, remove_notification, notify_session,
  generate_session_id,
}

pub record HandlerConfig : Type 0 where
  pub default_keep_alive_secs : ℕ
  pub frame_channel_capacity : ℕ

abbrev pub default_config : HandlerConfig
default_config = record { default_keep_alive_secs = 60; frame_channel_capacity = 32 }

-- "Session registration failed"
pub data HandlerError : Type 0 where
  registration_failed : HandlerError

module _ {c : Config} where
  -- `while let Ok(Some(pkt)) = …`, on fuel. To run out of fuel counts as a crash.
  pub dequeue_all : {E : Type 0} → ℕ → PicoBroker c → ℕ → Step (PicoBroker c) E (List (Packet c))
  dequeue_all zero b session_id = crash
  dequeue_all (suc fuel) b session_id = elim (dequeue_packet_to_send_to_client b session_id) [
    | crash ↦ crash
    | fail b' _ ↦ done b' []
    | done b' none ↦ done b' []
    | done b' (some packet) ↦
        then_step (dequeue_all fuel b' session_id) λ b'' packets. done b'' (packet ∷ packets)
  ]

  -- What follows where the broker returned Ok: the sessions to notify and the packets to send.
  pub collect_answers :
      {E : Type 0} → PicoBroker c → ℕ → Step (PicoBroker c) E (List ℕ × List (Packet c))
  unfolding dequeue_all
  collect_answers b session_id = elim (get_sessions_with_pending_packets b) [
    | crash ↦ crash
    | fail _ e ↦ fail b e
    | done pending _ ↦
        then_step (dequeue_all (suc c.queue_size) b session_id)
          λ b' tx_packets. done b' (as_slice pending, tx_packets)
  ]

  -- A packet has been read: the part of the arm that holds the broker's lock.
  pub receive_packet :
      {E : Type 0}
      → PicoBroker c
      → ℕ
      → Packet c
      → ℕ
      → Step (PicoBroker c) E (List ℕ × List (Packet c))
  unfolding collect_answers
  receive_packet b session_id packet current_time =
      elim (then_step (queue_packet_received_from_client b session_id packet current_time)
        (λ b' _. process_all_session_packets b')) [
          | crash ↦ crash
          | fail b' _ ↦ elim (mark_session_disconnected b' session_id) [
            | crash ↦ crash
            | fail b'' _ ↦ done b'' ([], [])
            | done b'' _ ↦ done b'' ([], [])
          ]
          | done b' _ ↦ collect_answers b' session_id
        ]

  -- A notification has come: the part of the arm that holds the broker's lock.
  pub receive_notification :
      {E : Type 0} → PicoBroker c → ℕ → Step (PicoBroker c) E (List (Packet c))
  unfolding dequeue_all
  receive_notification b session_id = dequeue_all (suc c.queue_size) b session_id

-- How the loop over the packets to send ends. `blocked`: the task waits for room in its own
-- channel of frames, which only the same task empties.
pub data Sending : Type 0 where
  sent : List (List ℕ) → Sending
  blocked crashed : Sending

module _ {L P : ℕ} where
  -- The loop with the frames that wait in the channel; a packet that is not encoded is left out.
  pub send_packets : ℕ → List (List ℕ) → List (Packets.Packet L P) → Sending
  send_packets capacity frames [] = sent frames
  send_packets capacity frames (packet ∷ packets) = elim (encode_frame packet) [
    | panic ↦ crashed
    | err _ ↦ send_packets capacity frames packets
    | ok frame ↦
        let rest = send_packets capacity (frames ++ frame ∷ []) packets in
        if ltb (length frames) capacity then rest else blocked
  ]

module _ {D : DashMap} {Sender : Type 0} where
  -- `for sid in sessions_to_notify`
  pub notify_all : ServerState D Sender → List ℕ → List Sender
  notify_all s [] = []
  notify_all s (sid ∷ sids) = notify_session s sid ++ notify_all s sids

module _ {D : DashMap} {Sender : Type 0} {c : Config} where
  -- Up to the connection's loop: the session's id, its notification sender and its registration.
  pub open_connection :
      ServerState D Sender
      → PicoBroker c
      → HandlerConfig
      → Sender
      → ℕ
      → ℕ
      → Step (ServerState D Sender × PicoBroker c) HandlerError ℕ
  open_connection s b config notify_tx secs current_time =
      let (s1, session_id) = generate_session_id s secs in
      let s2 = register_notification s1 session_id notify_tx in
      elim (register_new_session b session_id config.default_keep_alive_secs current_time) [
        | crash ↦ crash
        | fail b' _ ↦ fail (s2, b') registration_failed
        | done b' _ ↦
            done (record s2 { connections = D.insert s2.connections session_id tt }, b') session_id
      ]

  -- Behind the connection's loop.
  pub close_connection :
      {E : Type 0}
      → ServerState D Sender
      → PicoBroker c
      → ℕ
      → Step (ServerState D Sender × PicoBroker c) E (Unit {0})
  close_connection s b session_id =
      let s' =
        remove_notification (record s { connections = D.remove s.connections session_id })
          session_id in
      elim (remove_session b session_id) [
        | crash ↦ crash
        | fail b' _ ↦ done (s', b') tt
        | done b' _ ↦ done (s', b') tt
      ]
