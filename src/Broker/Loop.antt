-- ===== src/Broker/Loop.antt =====
-- src/broker.rs: `process_all_session_packets` and `get_sessions_with_pending_packets`.
pub mod Processing
pub mod Draining
pub mod Pending
use picobroker.Base.{ℕ, zero, suc, none, some, List, [], ◌∷◌, if◌then◌else◌}
use picobroker.Base.Result.{Step, done, fail, crash}
use picobroker.Config.{Config}
use picobroker.Error.{BrokerError}
use picobroker.Heapless
use picobroker.Heapless.{HeaplessVec}
use picobroker.Session.Registry
use picobroker.Session.Registry.{somes}
use picobroker.Broker.{PicoBroker, on_sessions, get_all_sessions, handle_packet}

module _ {c : Config} where
  -- `while let Some(packet) = …`, on fuel. To run out of fuel counts as a crash.
  pub drain_session : ℕ → PicoBroker c → ℕ → Step (PicoBroker c) BrokerError (Unit {0})
  drain_session zero b session_id = crash
  drain_session (suc fuel) b session_id =
      elim (on_sessions b (Registry.dequeue_rx_packet b.sessions session_id)) [
        | crash ↦ crash
        | fail b' e ↦ fail b' e
        | done b' none ↦ done b' tt
        | done b' (some packet) ↦ elim (handle_packet b' session_id packet) [
          | crash ↦ crash
          | fail b'' e ↦ fail b'' e
          | done b'' _ ↦ drain_session fuel b'' session_id
        ]
      ]

  pub drain_sessions : PicoBroker c → List ℕ → Step (PicoBroker c) BrokerError (Unit {0})
  unfolding drain_session
  drain_sessions b [] = done b tt
  drain_sessions b (session_id ∷ rest) = elim (drain_session (suc c.queue_size) b session_id) [
    | crash ↦ crash
    | fail b' e ↦ fail b' e
    | done b' _ ↦ drain_sessions b' rest
  ]

  -- A queue holds at most `queue_size` packets, and no handler adds to a receive queue.
  pub process_all_session_packets : PicoBroker c → Step (PicoBroker c) BrokerError (Unit {0})
  unfolding drain_sessions
  process_all_session_packets b = drain_sessions b (somes (get_all_sessions b))

  -- The sessions that wait for packets; that the result is full is ignored.
  pub collect_pending :
      {E : Type 0}
      → PicoBroker c
      → List ℕ
      → HeaplessVec ℕ c.max_sessions
      → Step (HeaplessVec ℕ c.max_sessions) E (Unit {0})
  collect_pending b [] pending = done pending tt
  collect_pending b (session_id ∷ rest) pending =
      elim (if Registry.has_pending_tx_packets b.sessions session_id
        then Heapless.push pending session_id
        else done pending tt) [
          | crash ↦ crash
          | fail v _ ↦ collect_pending b rest v
          | done v _ ↦ collect_pending b rest v
        ]

  pub get_sessions_with_pending_packets :
      {E : Type 0} → PicoBroker c → Step (HeaplessVec ℕ c.max_sessions) E (Unit {0})
  unfolding collect_pending
  get_sessions_with_pending_packets b =
      collect_pending b (somes (get_all_sessions b)) (Heapless.new 0)
