-- ===== src/Tokio/Server.antt =====
-- src/examples/tokio_mqtt_server/src/server.rs
pub mod Cleanup
use picobroker.Base.{ℕ, List, [], ◌∷◌, Option}
use picobroker.Base.Result.{Step, done, fail, crash, then_step}
use picobroker.Broker
use picobroker.Broker.{PicoBroker, get_expired_sessions, get_disconnected_sessions, remove_session}
use picobroker.Config.{Config}
use picobroker.Session.Registry.{somes, ids_of_infos}
use picobroker.Tokio.State
use picobroker.Tokio.State.{DashMap, ServerState}

pub record MqttServerConfig : Type 0 where
  pub default_keep_alive_secs : ℕ
  pub frame_channel_capacity : ℕ
  pub cleanup_interval_secs : ℕ

pub default_config : MqttServerConfig
default_config = record {
  default_keep_alive_secs = 60;
  frame_channel_capacity = 32;
  cleanup_interval_secs = 5;
}

pub record MqttServer (D : DashMap) (Sender : Type 0) (c : Config) : Type 0 where
  pub state : ServerState D Sender
  pub broker : PicoBroker c
  pub config : MqttServerConfig

module _ {D : DashMap} {Sender : Type 0} {c : Config} where
  pub with_config : MqttServerConfig → MqttServer D Sender c
  with_config config = record { state = State.new; broker = Broker.new; config = config }

  -- The loop over the sessions that are cleaned up.
  pub remove_all :
      {E : Type 0} → MqttServer D Sender c → List ℕ → Step (MqttServer D Sender c) E (Unit {0})
  remove_all s [] = done s tt
  remove_all s (session_id ∷ rest) =
      let state' = record (MqttServer.state s) {
        connections = D.remove s.state.connections session_id;
      } in
      elim (remove_session s.broker session_id) [
        | crash ↦ crash
        | fail b' _ ↦ remove_all (record s { state = state'; broker = b' }) rest
        | done b' _ ↦ remove_all (record s { state = state'; broker = b' }) rest
      ]

  -- One scan of `cleanup_task`.
  pub cleanup : {E : Type 0} → MqttServer D Sender c → ℕ → Step (MqttServer D Sender c) E (Unit {0})
  unfolding remove_all
  cleanup s current_time =
      then_step (remove_all s (ids_of_infos (somes (get_expired_sessions s.broker current_time))))
        (λ s' _. remove_all s' (somes (get_disconnected_sessions s'.broker)))

  pub new : MqttServer D Sender c
  unfolding with_config
  new = with_config default_config
