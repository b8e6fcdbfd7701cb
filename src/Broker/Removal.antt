-- ===== src/Broker/Removal.antt =====
-- `PicoBroker::remove_session`: nothing of the session is left.
use picobroker.Base.{ℕ, ◌≡◌, refl, Bool, not, ◌&&◌, none, ◌==◌, if◌then◌else◌}
use picobroker.Base.Result.{done}
use picobroker.Config.{Config}
use picobroker.Error.{BrokerError}
use picobroker.Packets.{TopicName}
use picobroker.Session.Registry.{find_session}
use picobroker.Session.Registry.Removal.{remove_session_lem}
use picobroker.Topics.Registry.{subscribed}
use picobroker.Topics.Unregister.{unregister_all_lem}
use picobroker.Broker.{PicoBroker, remove_session}
use picobroker.Broker.Invariant.{IsValid}

module _ {c : Config} where
  -- For a valid broker, remove_session returns Ok and leaves a valid broker in which the session
  -- does not exist and is subscribed to nothing, and every other session and subscription is as
  -- it was.
  pub remove_session-forgets :
      (b : PicoBroker c) (i : ℕ)
      → IsValid b
      → (b' : PicoBroker c) × (was : Bool) × (remove_session b i ≡ done b' was)
        × IsValid b'
        × ((g : TopicName c.max_topic_name_length) (j : ℕ)
            → subscribed b'.topics g j ≡ (subscribed b.topics g j && not (i == j)))
        × ((j : ℕ)
            → find_session b'.sessions j ≡ (if i == j then none else find_session b.sessions j))
  unfolding remove_session
  remove_session-forgets b i v =
      let (t, n, m, ok_t, pairs) = unregister_all_lem {E = BrokerError} b.topics i v.topics in
      let (s, was, m', ok_s, left) = remove_session_lem {E = BrokerError} b.sessions i v.sessions in
      (
        record { topics = t; sessions = s },
        was,
        rw (remove_session, m, m') refl,
        record { topics = ok_t; sessions = ok_s },
        pairs,
        left,
      )
