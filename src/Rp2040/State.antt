-- ===== src/Rp2040/State.antt =====
-- src/examples/rp2040_mqtt_server/src/state.rs: the notifications of the connections.
pub mod Notifying
use picobroker.Base.{
  ℕ, Bool, Option, none, some, List, ltb, ◌==◌, if◌then◌else◌, set, get_elem?, position,
}

-- A channel for one signal, of another crate: `try_send` and whether a signal is there to receive.
pub record Channel : Type 1 where
  pub Signals : Type 0
  pub try_send : Signals → Signals
  pub has_signal : Signals → Bool

module _ (C : Channel) (max_sessions : ℕ) where
  -- Two arrays of `max_sessions` slots; the id 0 stands for none.
  pub record NotificationRegistry : Type 0 where
    pub channels : List C.Signals
    pub session_ids : List ℕ

module _ {C : Channel} {max_sessions : ℕ} where
  pub register_session :
      NotificationRegistry C max_sessions → ℕ → ℕ → NotificationRegistry C max_sessions
  register_session r channel_idx session_id =
      if ltb channel_idx max_sessions
      then record r { session_ids = set r.session_ids channel_idx session_id }
      else r

  pub unregister_session :
      NotificationRegistry C max_sessions → ℕ → NotificationRegistry C max_sessions
  unregister_session r channel_idx =
      if ltb channel_idx max_sessions
      then record r { session_ids = set r.session_ids channel_idx 0 }
      else r

  -- The first slot with the id gets the signal. None: an index out of range.
  pub notify_session :
      NotificationRegistry C max_sessions → ℕ → Option (NotificationRegistry C max_sessions)
  notify_session r session_id = elim (position (λ id. id == session_id) r.session_ids) [
    | none ↦ some r
    | some idx ↦ elim (get_elem? r.channels idx) [
      | none ↦ none
      | some signals ↦ some (record r { channels = set r.channels idx (C.try_send signals) })
    ]
  ]
