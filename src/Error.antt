-- ===== src/Error.antt =====
-- src/error.rs
use picobroker.Base.{ℕ}
use picobroker.Protocol.{ProtocolError}

pub data NetworkError : Type 0 where
  connection_closed read_failed read_would_block read_timed_out read_interrupted : NetworkError
  write_failed write_would_block write_timed_out write_interrupted : NetworkError
  flush_failed accept_failed accept_would_block close_failed : NetworkError

pub data BrokerError : Type 0 where
  session_already_exists : (session_id : ℕ) → BrokerError
  session_not_found : (session_id : ℕ) → BrokerError
  session_queue_full : (session_id queue_size : ℕ) → BrokerError
  session_disconnected : (session_id : ℕ) → BrokerError
  max_sessions_reached : (current max : ℕ) → BrokerError
  max_subscribers_per_topic_reached : (current max : ℕ) → BrokerError
  max_topics_reached : (current max : ℕ) → BrokerError
  network : NetworkError → BrokerError
  protocol : ProtocolError → BrokerError
  buffer_full : BrokerError
