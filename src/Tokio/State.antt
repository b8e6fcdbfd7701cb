-- ===== src/Tokio/State.antt =====
-- src/examples/tokio_mqtt_server/src/state.rs
use picobroker.Base.{
  ℕ, ◌+◌, ◌*◌, ◌%◌, ◌^◌, bit_or, ◌≡◌, Option, none, some, List, [], ◌∷◌, ◌==◌, if◌then◌else◌,
}

-- The map of the `dashmap` crate, with the keys of the server.
pub record DashMap : Type 1 where
  pub Map : Type 0 → Type 0
  pub empty : {V : Type 0} → Map V
  pub insert : {V : Type 0} → Map V → ℕ → V → Map V
  pub remove : {V : Type 0} → Map V → ℕ → Map V
  pub get : {V : Type 0} → Map V → ℕ → Option V

-- What its documentation says of these operations.
pub record DashMapLaws (D : DashMap) : Type 1 where
  pub get-insert :
      {V : Type 0} (m : D.Map V) (k : ℕ) (v : V) (j : ℕ)
      → D.get (D.insert m k v) j ≡ (if k == j then some v else D.get m j)
  pub get-remove :
      {V : Type 0} (m : D.Map V) (k j : ℕ)
      → D.get (D.remove m k) j ≡ (if k == j then none else D.get m j)

-- `Sender` is the sending end of a channel of `tokio`.
pub record ServerState (D : DashMap) (Sender : Type 0) : Type 0 where
  pub connections : D.Map (Unit {0})
  pub session_id_gen : ℕ
  pub notification_senders : D.Map Sender

module _ {D : DashMap} {Sender : Type 0} where
  pub new : ServerState D Sender
  new = record { connections = D.empty; session_id_gen = 0; notification_senders = D.empty }

  unfoldable pub register_notification : ServerState D Sender → ℕ → Sender → ServerState D Sender
  register_notification s session_id sender = record s {
    notification_senders = D.insert s.notification_senders session_id sender;
  }

  unfoldable pub remove_notification : ServerState D Sender → ℕ → ServerState D Sender
  remove_notification s session_id = record s {
    notification_senders = D.remove s.notification_senders session_id;
  }

  -- The senders to which `()` is sent, at most one.
  unfoldable pub notify_session : ServerState D Sender → ℕ → List Sender
  notify_session s session_id = elim (D.get s.notification_senders session_id) [
    | none ↦ []
    | some sender ↦ sender ∷ []
  ]

  -- `SessionIdGenerator::generate`, with the seconds that the clock gives: an `AtomicU64`, u128.
  unfoldable pub generate_session_id : ServerState D Sender → ℕ → ServerState D Sender × ℕ
  generate_session_id s base = (
    record s { session_id_gen = (s.session_id_gen + 1) % 2 ^ 64 },
    bit_or (base * 2 ^ 32 % 2 ^ 128) s.session_id_gen,
  )
