-- ===== src/Tokio/Handler/Connections.antt =====
-- What opening and closing a connection leaves in the server's maps and in the broker.
use picobroker.Base.{
  ℕ, ◌<◌, ◌≡◌, refl, ap, ◌∙◌, not, ◌&&◌, none, some, ◌==◌, ==_self, if◌then◌else◌,
}
use picobroker.Base.Result.{Step, done, fail, crash}
use picobroker.Broker.{PicoBroker, on_sessions, register_new_session}
use picobroker.Broker.Invariant.{IsValid}
use picobroker.Broker.Removal.{remove_session-forgets}
use picobroker.Config.{Config}
use picobroker.Error.{BrokerError}
use picobroker.Heapless.{u16_mod}
use picobroker.Packets.{TopicName}
use picobroker.Session
use picobroker.Session.Registry
use picobroker.Session.Registry.{SessionRegistry, find_session}
use picobroker.Session.Registry.Arrivals.{Registers, register_new_session_lem}
use picobroker.Topics.Registry.{subscribed}
use picobroker.Tokio.State.{
  DashMap, DashMapLaws, ServerState, register_notification, remove_notification,
  generate_session_id,
}
use picobroker.Tokio.Handler.{
  HandlerConfig, HandlerError, registration_failed, open_connection, close_connection,
}

module _ {D : DashMap} (laws : DashMapLaws D) {Sender : Type 0} {c : Config} where
  -- The session is registered under the new id, or the broker is as before; its sender is kept in
  -- both cases.
  abbrev pub Opens :
      ServerState D Sender
      → PicoBroker c
      → HandlerConfig
      → Sender
      → ℕ
      → ℕ
      → Step (ServerState D Sender × PicoBroker c) HandlerError ℕ
      → Type 0
  Opens s b config tx i now (done (s', b') session_id) =
      (session_id ≡ i)
      × IsValid b'
      × (find_session b.sessions i ≡ none)
      × ((j : ℕ)
          → find_session b'.sessions j ≡ (
              if i == j
              then some (Session.new i config.default_keep_alive_secs now)
              else find_session b.sessions j))
      × (D.get s'.connections i ≡ some tt)
      × (D.get s'.notification_senders i ≡ some tx)
  Opens s b config tx i now (fail (s', b') e) =
      (b' ≡ b) × (s'.connections ≡ s.connections) × (D.get s'.notification_senders i ≡ some tx)
  Opens s b config tx i now crash = ⊥

  -- With a valid broker whose queue size fits a u16 and a map that does what it documents,
  -- opening a connection does not panic. Where it succeeds, the generated id had no session, now
  -- has a new one, and is in the maps of connections and of senders. Where it fails, the broker
  -- and the connections are as before, and the notification sender of the id is kept.
  pub open_connection-Opens :
      (s : ServerState D Sender) (b : PicoBroker c) (config : HandlerConfig) (tx : Sender)
      (secs now : ℕ)
      → IsValid b
      → c.queue_size < u16_mod
      → Opens s b config tx
          (generate_session_id s secs).1
          now
          (open_connection s b config tx secs now)
  unfolding open_connection register_new_session register_notification generate_session_id
  open_connection-Opens s b config tx secs now v h =
      by_result (Registry.register_new_session b.sessions i config.default_keep_alive_secs now)
        (register_new_session_lem b.sessions i config.default_keep_alive_secs now h v.sessions)
    where
      i : ℕ
      i = (generate_session_id s secs).1

      s2 : ServerState D Sender
      s2 = register_notification (generate_session_id s secs).0 i tx

      by_result :
          (m : Step (SessionRegistry c) BrokerError (Unit {0}))
          → Registers b.sessions i config.default_keep_alive_secs now m
          → Opens s b config tx i now (elim (on_sessions b m) [
            | crash ↦ crash
            | fail b' _ ↦ fail (s2, b') registration_failed
            | done b' _ ↦ done (record s2 { connections = D.insert s2.connections i tt }, b') i
          ])
      by_result (done r u) (w, absent, found) = (
        refl,
        record { topics = v.topics; sessions = w },
        absent,
        found,
        laws.get-insert s.connections i tt i ∙ rw (==_self i) refl,
        laws.get-insert s.notification_senders i tx i ∙ rw (==_self i) refl,
      )
      by_result (fail r e) same = (
        ap (λ k. record b { sessions = k }) same,
        refl,
        laws.get-insert s.notification_senders i tx i ∙ rw (==_self i) refl,
      )
      by_result crash bad = bad

  abbrev pub Closes :
      {E : Type 0}
      → ServerState D Sender
      → PicoBroker c
      → ℕ
      → Step (ServerState D Sender × PicoBroker c) E (Unit {0})
      → Type 0
  Closes s b i m =
      (s' : ServerState D Sender) × (b' : PicoBroker c) × (m ≡ done (s', b') tt)
      × IsValid b'
      × ((j : ℕ)
          → (find_session b'.sessions j ≡ (if i == j then none else find_session b.sessions j))
            × (D.get s'.connections j ≡ (if i == j then none else D.get s.connections j))
            × (D.get s'.notification_senders j
                ≡ (if i == j then none else D.get s.notification_senders j)))
      × ((g : TopicName c.max_topic_name_length) (j : ℕ)
          → subscribed b'.topics g j ≡ (subscribed b.topics g j && not (i == j)))

  -- With a valid broker and a map that does what it documents, closing a connection leaves a
  -- valid broker and nothing of the session: no session, no subscription, no connection and no
  -- notification sender; those of every other session are as they were.
  pub close_connection-forgets :
      (E : Type 0) (s : ServerState D Sender) (b : PicoBroker c) (i : ℕ)
      → IsValid b
      → Closes s b i (close_connection {E = E} s b i)
  unfolding close_connection remove_notification
  close_connection-forgets E s b i v =
      let (b', was, m, ok_b, pairs, left) = remove_session-forgets b i v in
      (
        record s {
          connections = D.remove s.connections i;
          notification_senders = D.remove s.notification_senders i;
        },
        b',
        rw (close_connection, m) refl,
        ok_b,
        λ j.
            (left j, laws.get-remove s.connections i j, laws.get-remove s.notification_senders i j),
        pairs,
      )
