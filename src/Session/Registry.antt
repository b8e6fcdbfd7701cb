-- ===== src/Session/Registry.antt =====
-- src/session.rs: `SessionRegistry`.
pub mod Slots
pub mod Laws
pub mod Queues
pub mod Dequeues
pub mod Members
pub mod Removal
pub mod Arrivals
pub mod Listing
use picobroker.Base.{
  ℕ, zero, suc, Bool, true, false, not, Option, none, some, List, [], ◌∷◌, ltb, leb, ◌==◌,
  if◌then◌else◌, length, set, replicate, select, position, find,
}
use picobroker.Base.Result.{Step, done, fail, crash, map_step, then_step}
use picobroker.Config.{Config}
use picobroker.Error.{
  BrokerError, buffer_full, session_not_found, session_already_exists, max_sessions_reached,
  session_queue_full,
}
use picobroker.Heapless
use picobroker.Heapless.{HeaplessVec, as_slice}
use picobroker.Packets.{ClientId}
use picobroker.Session
use picobroker.Session.{
  Session, SessionState, connected, disconnected, is_disconnected, Packet, ExpirationInfo,
  is_expired, flatten_option,
}

-- `into_iter().flatten()` of options.
abbrev pub somes {ℓ} : {A : Type ℓ} → List (Option A) → List A
somes [] = []
somes (none ∷ os) = somes os
somes (some a ∷ os) = a ∷ somes os

-- The items are stored one after the other into an array of options, as far as there is room.
pub store_all {ℓ} : {A : Type ℓ} → List A → ℕ → List (Option A) → List (Option A)
store_all [] count slots = slots
store_all (x ∷ xs) count slots =
    store_all xs (if ltb count (length slots) then suc count else count)
      (if ltb count (length slots) then set slots count (some x) else slots)

-- `map(|info| info.session_id)`
abbrev pub ids_of_infos : List ExpirationInfo → List ℕ
ids_of_infos [] = []
ids_of_infos (info ∷ infos) = info.session_id ∷ ids_of_infos infos

pub record SessionRegistry (c : Config) : Type 0 where
  pub sessions : HeaplessVec (Option (Session c)) c.max_sessions

module _ {c : Config} where
  pub default_registry : SessionRegistry c
  default_registry = record { sessions = Heapless.new none }

  abbrev pub has_id : ℕ → Option (Session c) → Bool
  has_id session_id none = false
  has_id session_id (some s) = s.session_id == session_id

  abbrev pub live_sessions : SessionRegistry c → List (Session c)
  live_sessions r = somes (as_slice r.sessions)

  abbrev pub ids_of : List (Session c) → List ℕ
  ids_of [] = []
  ids_of (s ∷ ss) = s.session_id ∷ ids_of ss

  pub get_all_sessions : SessionRegistry c → List (Option ℕ)
  unfolding store_all
  get_all_sessions r = store_all (ids_of (live_sessions r)) 0 (replicate c.max_sessions none)

  abbrev expirations_of : ℕ → List (Session c) → List ExpirationInfo
  expirations_of t [] = []
  expirations_of t (s ∷ ss) = Session.expiration_info s t ∷ expirations_of t ss

  pub get_expired_sessions : SessionRegistry c → ℕ → List (Option ExpirationInfo)
  unfolding store_all
  get_expired_sessions r current_time =
      store_all (select is_expired (expirations_of current_time (live_sessions r))) 0
        (replicate c.max_sessions none)

  pub get_disconnected_sessions : SessionRegistry c → List (Option ℕ)
  unfolding store_all
  get_disconnected_sessions r =
      store_all (ids_of (select (λ s. is_disconnected s.state) (live_sessions r))) 0
        (replicate c.max_sessions none)

  pub find_session : SessionRegistry c → ℕ → Option (Session c)
  find_session r session_id = flatten_option (find (has_id session_id) (as_slice r.sessions))

  -- The session that `find_session` lends is written.
  pub write_session : SessionRegistry c → ℕ → Session c → SessionRegistry c
  write_session r session_id s = record r {
    sessions = Heapless.modify (has_id session_id) (λ _. some s) r.sessions;
  }

  -- `if let Some(session) = self.find_session(session_id) { … } else { Err(SessionNotFound) }`
  pub on_session :
      {A : Type 0}
      → SessionRegistry c
      → ℕ
      → (Session c → Step (Session c) BrokerError A)
      → Step (SessionRegistry c) BrokerError A
  on_session r session_id method = elim (find_session r session_id) [
    | none ↦ fail r (session_not_found session_id)
    | some s ↦ map_step (write_session r session_id) (λ e. e) (method s)
  ]

  pub mark_connected : SessionRegistry c → ℕ → Step (SessionRegistry c) BrokerError (Unit {0})
  mark_connected r session_id =
      on_session r session_id λ s. done (record s { state = connected }) tt

  pub mark_disconnected : SessionRegistry c → ℕ → Step (SessionRegistry c) BrokerError (Unit {0})
  mark_disconnected r session_id =
      on_session r session_id λ s. done (record s { state = disconnected }) tt

  pub register_new_session :
      SessionRegistry c → ℕ → ℕ → ℕ → Step (SessionRegistry c) BrokerError (Unit {0})
  register_new_session r session_id keep_alive_secs current_time =
      let current = Heapless.len r.sessions in
      if leb c.max_sessions current
      then fail r (max_sessions_reached current c.max_sessions)
      else elim (find_session r session_id) [
        | some _ ↦ fail r (session_already_exists session_id)
        | none ↦
            map_step (λ v. record r { sessions = v }) (λ _. buffer_full)
              (Heapless.push r.sessions
                (some (Session.new session_id keep_alive_secs current_time)))
      ]

  pub remove_session : {E : Type 0} → SessionRegistry c → ℕ → Step (SessionRegistry c) E Bool
  remove_session r session_id = elim (position (has_id session_id) (as_slice r.sessions)) [
    | none ↦ done r false
    | some idx ↦
        then_step
          (map_step (λ v. record r { sessions = v }) (λ x. x) (Heapless.remove r.sessions idx))
          (λ r' _. done r' true)
  ]

  pub update_session_activity :
      SessionRegistry c → ℕ → ℕ → Step (SessionRegistry c) BrokerError (Unit {0})
  update_session_activity r session_id current_time =
      on_session r session_id λ s. done (Session.update_activity s current_time) tt

  pub update_client_id :
      SessionRegistry c → ℕ → ClientId → Step (SessionRegistry c) BrokerError (Unit {0})
  update_client_id r session_id client_id =
      on_session r session_id λ s. done (record s { client_id = some client_id }) tt

  pub update_keep_alive :
      SessionRegistry c → ℕ → ℕ → Step (SessionRegistry c) BrokerError (Unit {0})
  update_keep_alive r session_id keep_alive_secs =
      on_session r session_id λ s. done (record s { keep_alive_secs = keep_alive_secs }) tt

  pub queue_rx_packet :
      SessionRegistry c → ℕ → Packet c → Step (SessionRegistry c) BrokerError (Unit {0})
  queue_rx_packet r session_id packet = on_session r session_id λ s.
      map_step (λ x. x) (λ _. session_queue_full session_id c.queue_size)
        (Session.queue_rx_packet s packet)

  pub queue_tx_packet :
      SessionRegistry c → ℕ → Packet c → Step (SessionRegistry c) BrokerError (Unit {0})
  queue_tx_packet r session_id packet = on_session r session_id λ s.
      map_step (λ x. x) (λ _. session_queue_full session_id c.queue_size)
        (Session.queue_tx_packet s packet)

  pub dequeue_rx_packet :
      SessionRegistry c → ℕ → Step (SessionRegistry c) BrokerError (Option (Packet c))
  dequeue_rx_packet r session_id =
      on_session r session_id λ s. let (s', p) = Session.dequeue_rx_packet s in done s' p

  pub dequeue_tx_packet :
      SessionRegistry c → ℕ → Step (SessionRegistry c) BrokerError (Option (Packet c))
  dequeue_tx_packet r session_id =
      on_session r session_id λ s. let (s', p) = Session.dequeue_tx_packet s in done s' p

  unfoldable pub has_pending_tx_packets : SessionRegistry c → ℕ → Bool
  has_pending_tx_packets r session_id = elim (find_session r session_id) [
    | none ↦ false
    | some s ↦ not (Heapless.is_empty s.tx_queue)
  ]
