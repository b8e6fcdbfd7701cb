-- ===== src/Tokio/Server/Cleanup.antt =====
-- One scan of `cleanup_task` removes the sessions that are expired or disconnected, and no other.
use picobroker.Base.{
  ℕ, ◌≡◌, refl, sym, ap, ◌∙◌, Bool, true, false, not, ◌&&◌, Option, none, some, List, [], ◌∷◌, ◌==◌,
  if◌then◌else◌,
}
use picobroker.Base.Result.{done}
use picobroker.Broker.{get_expired_sessions, get_disconnected_sessions}
use picobroker.Broker.Invariant.{IsValid}
use picobroker.Broker.Removal.{remove_session-forgets}
use picobroker.Config.{Config}
use picobroker.Packets.{TopicName}
use picobroker.Session.{Session, is_disconnected}
use picobroker.Session.Registry.{somes, ids_of_infos, find_session}
use picobroker.Session.Registry.Listing.{
  holds, expired_at, get_expired_sessions_lem, get_disconnected_sessions_lem,
}
use picobroker.Topics.{contains}
use picobroker.Topics.Registry.{subscribed}
use picobroker.Tokio.State.{DashMap, DashMapLaws, ServerState}
use picobroker.Tokio.Server.{MqttServer, remove_all, cleanup}

module _ {c : Config} where
  -- A session is removed if its keep-alive has run out or it is marked as disconnected.
  abbrev pub is_stale : ℕ → Session c → Bool
  is_stale t s = if expired_at t s then true else is_disconnected s.state

module _ {D : DashMap} (laws : DashMapLaws D) {Sender : Type 0} {c : Config} where
  -- The sessions that pass a test are gone, with their subscriptions and connections.
  pub record Drops (gone : ℕ → Bool) (s s' : MqttServer D Sender c) : Type 0 where
    pub valid : IsValid s'.broker
    pub sessions :
        (j : ℕ)
        → find_session s'.broker.sessions j
          ≡ (if gone j then none else find_session s.broker.sessions j)
    pub subscriptions :
        (g : TopicName c.max_topic_name_length) (j : ℕ)
        → subscribed s'.broker.topics g j ≡ (subscribed s.broker.topics g j && not (gone j))
    pub connections :
        (j : ℕ)
        → D.get s'.state.connections j ≡ (if gone j then none else D.get s.state.connections j)
    pub senders : s'.state.notification_senders ≡ s.state.notification_senders

  -- A test that is passed by what one of two tests in turn passes.
  Drops-trans :
      (f g : ℕ → Bool) (s t u : MqttServer D Sender c)
      → Drops f s t
      → Drops g t u
      → Drops (λ j. if f j then true else g j) s u
  Drops-trans f g s t u h k = record {
    valid = k.valid;
    sessions =
        λ j. k.sessions j ∙ cases (f j) (g j) (find_session s.broker.sessions j) (h.sessions j);
    subscriptions = λ n j.
        k.subscriptions n j
        ∙ ap (λ b. b && not (g j)) (h.subscriptions n j)
        ∙ both (subscribed s.broker.topics n j) (f j) (g j);
    connections =
        λ j. k.connections j ∙ cases (f j) (g j) (D.get s.state.connections j) (h.connections j);
    senders = k.senders ∙ h.senders;
  }
    where
      cases :
          {A : Type 0}
          → (a b : Bool) (o : Option A) {o' : Option A} → o' ≡ (if a then none else o)
          → (if b then none else o') ≡ (if (if a then true else b) then none else o)
      cases true true o e = refl
      cases true false o e = e
      cases false true o e = refl
      cases false false o e = e

      both : (p a b : Bool) → ((p && not a) && not b) ≡ (p && not (if a then true else b))
      both true true b = refl
      both true false b = refl
      both false a b = refl

  remove_all-Drops :
      (E : Type 0) (s : MqttServer D Sender c) (ids : List ℕ)
      → IsValid s.broker
      → (s' : MqttServer D Sender c) × (remove_all {E = E} s ids ≡ done s' tt)
        × Drops (λ j. contains j ids) s s'
  unfolding remove_all
  remove_all-Drops E s [] v = (
    s,
    refl,
    record {
      valid = v;
      sessions = λ j. refl;
      subscriptions = λ g j. stays (subscribed s.broker.topics g j);
      connections = λ j. refl;
      senders = refl;
    },
  )
    where
      stays : (p : Bool) → p ≡ (p && true)
      stays true = refl
      stays false = refl
  remove_all-Drops E s (i ∷ ids) v =
      let (b, was, m, ok_b, pairs, left) = remove_session-forgets s.broker i v in
      let state' : ServerState D Sender = record (MqttServer.state s) {
        connections = D.remove s.state.connections i;
      } in
      let t : MqttServer D Sender c = record s { state = state'; broker = b } in
      let (u, e, later) = remove_all-Drops E t ids ok_b in
      let now : Drops (λ j. i == j) s t = record {
        valid = ok_b;
        sessions = left;
        subscriptions = pairs;
        connections = laws.get-remove s.state.connections i;
        senders = refl;
      } in
      (u, rw (remove_all, m) e, Drops-trans (λ j. i == j) (λ j. contains j ids) s t u now later)

  Drops-same :
      (f g : ℕ → Bool) (s s' : MqttServer D Sender c)
      → ((j : ℕ) → f j ≡ g j)
      → Drops f s s'
      → Drops g s s'
  Drops-same f g s s' same h = record {
    valid = h.valid;
    sessions = λ j. (rw (sym (same j)) (h.sessions j));
    subscriptions = λ n j. (rw (sym (same j)) (h.subscriptions n j));
    connections = λ j. (rw (sym (same j)) (h.connections j));
    senders = h.senders;
  }

  -- With a valid broker and a map that does what it documents, one scan of the cleanup task does
  -- not panic and leaves a valid broker; the sessions that are expired at its time or marked as
  -- disconnected are gone with their subscriptions and their connections, every other session,
  -- subscription and connection is as it was, and no notification sender is removed.
  pub cleanup-Drops :
      (E : Type 0) (s : MqttServer D Sender c) (t : ℕ)
      → IsValid s.broker
      → (s' : MqttServer D Sender c) × (cleanup {E = E} s t ≡ done s' tt)
        × Drops (λ j. holds (is_stale t) (find_session s.broker.sessions j)) s s'
  unfolding cleanup get_expired_sessions get_disconnected_sessions
  cleanup-Drops E s t v =
      let expired = ids_of_infos (somes (get_expired_sessions s.broker t)) in
      let (u, e, h) = remove_all-Drops E s expired v in
      let disconnected = somes (get_disconnected_sessions u.broker) in
      let (w, e', k) = remove_all-Drops E u disconnected h.valid in
      (
        w,
        rw (cleanup, e) e',
        Drops-same _ _ s w
            (λ j.
              stale j (find_session s.broker.sessions j) (contains j expired)
                (contains j disconnected)
                (get_expired_sessions_lem s.broker.sessions t j v.sessions)
                (get_disconnected_sessions_lem u.broker.sessions j h.valid.sessions
                  ∙ ap (holds (λ k. is_disconnected k.state)) (h.sessions j)))
            (Drops-trans (λ j. contains j expired) (λ j. contains j disconnected) s u w h k),
      )
    where
      stale :
          (j : ℕ) (o : Option (Session c)) (a b : Bool)
          → a ≡ holds (expired_at t) o
          → b ≡ holds (λ k. is_disconnected k.state) (if a then none else o)
          → (if a then true else b) ≡ holds (is_stale t) o
      stale j none true b e f = e
      stale j none false b e f = f
      stale j (some x) true b e f = rw (sym e) refl
      stale j (some x) false b e f = rw (sym e) f
