-- ===== src/Session.antt =====
-- src/session.rs: a client's session, and its expiry.
pub mod Registry
use picobroker.Base.{
  ℕ, ◌-◌, ◌*◌, ◌/◌, Bool, false, Option, none, some, List, ltb, ◌==◌, if◌then◌else◌,
}
use picobroker.Base.Result.{Step, map_step}
use picobroker.Config.{Config}
use picobroker.Error.{BrokerError, buffer_full}
use picobroker.Heapless
use picobroker.Heapless.{HeaplessVec}
use picobroker.Packets
use picobroker.Packets.{ClientId}

pub data SessionState : Type 0 where
  connecting connected disconnected : SessionState

abbrev pub is_disconnected : SessionState → Bool
is_disconnected disconnected = Bool.true
is_disconnected _ = false

abbrev pub Packet : Config → Type 0
Packet c = Packets.Packet c.max_topic_name_length c.max_payload_size

abbrev pub Queue : Config → Type 0
Queue c = HeaplessVec (Option (Packet c)) c.queue_size

pub record Session (c : Config) : Type 0 where
  pub session_id : ℕ
  pub client_id : Option ClientId
  pub state : SessionState
  pub keep_alive_secs : ℕ
  pub last_activity : ℕ
  pub rx_queue : Queue c
  pub tx_queue : Queue c

pub record ExpirationInfo : Type 0 where
  pub session_id : ℕ
  pub current_time : ℕ
  pub last_activity : ℕ
  pub keep_alive_secs : ℕ

-- `saturating_sub` is the subtraction of ℕ.
pub is_expired : ExpirationInfo → Bool
is_expired i =
    if i.keep_alive_secs == 0
    then false
    else (let timeout_secs = i.keep_alive_secs * 3 / 2 in
        let timeout_nanos = timeout_secs * 1_000_000_000 in
        let elapsed = i.current_time - i.last_activity in ltb timeout_nanos elapsed)

-- `Option::flatten`
abbrev pub flatten_option {ℓ} : {A : Type ℓ} → Option (Option A) → Option A
flatten_option none = none
flatten_option (some o) = o

module _ {c : Config} where
  pub new : ℕ → ℕ → ℕ → Session c
  new session_id keep_alive_secs current_time = record {
    session_id = session_id;
    client_id = none;
    state = connecting;
    keep_alive_secs = keep_alive_secs;
    last_activity = current_time;
    rx_queue = Heapless.new none;
    tx_queue = Heapless.new none;
  }

  unfoldable pub expiration_info : Session c → ℕ → ExpirationInfo
  expiration_info s current_time = record {
    session_id = s.session_id;
    current_time = current_time;
    last_activity = s.last_activity;
    keep_alive_secs = s.keep_alive_secs;
  }

  pub update_activity : Session c → ℕ → Session c
  update_activity s current_time = record s { last_activity = current_time }

  pub queue_tx_packet : Session c → Packet c → Step (Session c) BrokerError (Unit {0})
  queue_tx_packet s packet =
      map_step (λ q. record s { tx_queue = q }) (λ _. buffer_full)
        (Heapless.push s.tx_queue (some packet))

  pub dequeue_tx_packet : Session c → Session c × Option (Packet c)
  dequeue_tx_packet s =
      let (q, item) = Heapless.dequeue_front s.tx_queue in
      (record s { tx_queue = q }, flatten_option item)

  pub queue_rx_packet : Session c → Packet c → Step (Session c) BrokerError (Unit {0})
  queue_rx_packet s packet =
      map_step (λ q. record s { rx_queue = q }) (λ _. buffer_full)
        (Heapless.push s.rx_queue (some packet))

  pub dequeue_rx_packet : Session c → Session c × Option (Packet c)
  dequeue_rx_packet s =
      let (q, item) = Heapless.dequeue_front s.rx_queue in
      (record s { rx_queue = q }, flatten_option item)
