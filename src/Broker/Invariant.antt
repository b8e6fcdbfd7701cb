-- ===== src/Broker/Invariant.antt =====
-- The invariant of the broker: both registries are in order, and what the handlers keep of it.
use picobroker.Base.{
  ℕ, ◌≡◌, refl, ◌∙◌, if◌then◌else◌, Option, none, some, List, [], ◌∷◌, Bool-cases, inl, inr,
}
use picobroker.Base.Result.{
  Step, done, fail, crash, After, After-map_step, After-then_step, then_step,
}
use picobroker.Config.{Config}
use picobroker.Error.{BrokerError}
use picobroker.Heapless.{as_slice}
use picobroker.Packets.{
  ConnectPacket, PublishPacket, SubscribePacket, connect, conn_ack, publish, pub_ack, pub_rec,
  pub_rel, pub_comp, subscribe, sub_ack, unsubscribe, unsub_ack, ping_req, ping_resp, disconnect,
}
use picobroker.Protocol.{at_most_once, qos_lt}
use picobroker.Session.{Packet}
use picobroker.Session.Registry.{SessionRegistry}
use picobroker.Session.Registry
use picobroker.Session.Registry.Laws as SessionLaws
use picobroker.Session.Registry.Laws.{Keeps, rx_of}
use picobroker.Session.Registry.Queues.{queue_tx_packet-Keeps}
use picobroker.Session.Registry.Members.{
  mark_connected-Keeps, mark_disconnected-Keeps, update_client_id-Keeps, update_keep_alive-Keeps,
}
use picobroker.Text
use picobroker.Topics
use picobroker.Topics.{TopicRegistry}
use picobroker.Topics.Registry as TopicLaws
use picobroker.Topics.Registry.{Subscribes, subscribe-Subscribes}
use picobroker.Topics.Delivery.{get_subscribers_lem}
use picobroker.Broker.{
  PicoBroker, on_sessions, on_topics, send, deliver, acknowledge, handle_connect, handle_publish,
  handle_subscribe, handle_pingreq, handle_disconnect, mark_session_disconnected, handle_packet,
}

pub record IsValid {c : Config} (b : PicoBroker c) : Type 0 where
  pub topics : TopicLaws.IsValid b.topics
  pub sessions : SessionLaws.IsValid b.sessions

module _ {c : Config} where
  -- The broker stays in order, and no receive queue changes.
  pub record Serves (b b' : PicoBroker c) : Type 0 where
    pub valid : IsValid b'
    pub rx : (j : ℕ) → rx_of b'.sessions j ≡ rx_of b.sessions j

  Serves-self : (b : PicoBroker c) → IsValid b → Serves b b
  Serves-self b v = record { valid = v; rx = λ j. refl }

  Serves-trans : (b d e : PicoBroker c) → Serves b d → Serves d e → Serves b e
  Serves-trans b d e h k = record { valid = k.valid; rx = λ j. k.rx j ∙ h.rx j }

  -- A call on the sessions that keeps them.
  pub sessions-Serves :
      {A : Type 0} (b : PicoBroker c) (m : Step (SessionRegistry c) BrokerError A)
      → IsValid b
      → After (Keeps b.sessions) m
      → After (Serves b) (on_sessions b m)
  sessions-Serves b m v h =
      After-map_step (Keeps b.sessions) (Serves b) _ _ m
        (λ r k. record { valid = record { topics = v.topics; sessions = k.valid }; rx = k.rx }) h

  -- One call after the other.
  then-Serves :
      {A B : Type 0} (b : PicoBroker c) (m : Step (PicoBroker c) BrokerError A)
      (k : PicoBroker c → A → Step (PicoBroker c) BrokerError B)
      → After (Serves b) m
      → ((d : PicoBroker c) (a : A) → IsValid d → After (Serves d) (k d a))
      → After (Serves b) (then_step m k)
  then-Serves {B = B} b m k h next =
      After-then_step (Serves b) (Serves b) m k h (λ d s. s)
        λ d a s. after_trans d s (k d a) (next d a s.valid)
    where
      after_trans :
          (d : PicoBroker c)
          → Serves b d
          → (n : Step (PicoBroker c) BrokerError B) → After (Serves d) n
          → After (Serves b) n
      after_trans d s (done e x) t = Serves-trans b d e s t
      after_trans d s (fail e x) t = Serves-trans b d e s t
      after_trans d s crash t = t

  send-Serves :
      (b : PicoBroker c) (i : ℕ) (p : Packet c) → IsValid b → After (Serves b) (send b i p)
  send-Serves b i p v = sessions-Serves b _ v (queue_tx_packet-Keeps b.sessions i p v.sessions)

  connect-Serves :
      (b : PicoBroker c) (i : ℕ) (p : ConnectPacket c.max_topic_name_length c.max_payload_size)
      → IsValid b
      → After (Serves b) (handle_connect b i p)
  unfolding handle_connect
  connect-Serves b i p v = then-Serves b _ _ named λ b1 _ v1.
      then-Serves b1 _ _
        (sessions-Serves b1 _ v1 (update_keep_alive-Keeps b1.sessions i p.keep_alive v1.sessions))
        λ b2 _ v2.
          then-Serves b2 _ _
            (sessions-Serves b2 _ v2 (mark_connected-Keeps b2.sessions i v2.sessions))
            λ b3 _ v3. send-Serves b3 i _ v3
    where
      named : After (Serves b) (
          if Text.is_empty p.client_id
          then done b tt
          else on_sessions b (Registry.update_client_id b.sessions i p.client_id))
      named = elim (Bool-cases (Text.is_empty p.client_id)) [
        | inl empty ↦ rw empty (Serves-self b v)
        | inr given ↦
            rw given
              (sessions-Serves b _ v (update_client_id-Keeps b.sessions i p.client_id v.sessions))
      ]

  pub deliver-then :
      (b : PicoBroker c) (p : PublishPacket c.max_topic_name_length c.max_payload_size) (i : ℕ)
      (ids : List ℕ)
      → deliver b p (i ∷ ids) ≡ then_step (send b i (publish p)) (λ d _. deliver d p ids)
  unfolding deliver
  deliver-then b p i ids = by_result (send b i (publish p))
    where
      by_result :
          (m : Step (PicoBroker c) BrokerError (Unit {0}))
          → (elim m [ done d _ ↦ deliver d p ids | fail d e ↦ fail d e | crash ↦ crash ])
            ≡ then_step m (λ d _. deliver d p ids)
      by_result (done d _) = refl
      by_result (fail d e) = refl
      by_result crash = refl

  deliver-Serves :
      (b : PicoBroker c) (p : PublishPacket c.max_topic_name_length c.max_payload_size)
      (ids : List ℕ)
      → IsValid b
      → After (Serves b) (deliver b p ids)
  unfolding deliver
  deliver-Serves b p [] v = Serves-self b v
  deliver-Serves b p (i ∷ ids) v =
      rw (deliver-then b p i ids)
        (then-Serves b _ _ (send-Serves b i _ v) λ d _ w. deliver-Serves d p ids w)

  acknowledge-Serves :
      (b : PicoBroker c) (i : ℕ) (p : PublishPacket c.max_topic_name_length c.max_payload_size)
      (packet_id : Option ℕ)
      → IsValid b
      → After (Serves b) (acknowledge b i p packet_id)
  unfolding acknowledge
  acknowledge-Serves b i p none v = Serves-self b v
  acknowledge-Serves b i p (some packet_id) v = elim (Bool-cases (qos_lt at_most_once p.qos)) [
    | inl wanted ↦ rw wanted (send-Serves b i _ v)
    | inr unwanted ↦ rw unwanted (Serves-self b v)
  ]

  publish-Serves :
      (b : PicoBroker c) (i : ℕ) (p : PublishPacket c.max_topic_name_length c.max_payload_size)
      → IsValid b
      → After (Serves b) (handle_publish b i p)
  unfolding handle_publish
  publish-Serves b i p v =
      let (ids, found, _, _, _, _) =
        get_subscribers_lem {E = BrokerError} b.topics p.topic_name v.topics in
      rw (handle_publish, found)
        (then-Serves b _ _ (deliver-Serves b p (as_slice ids) v)
          λ d _ w. acknowledge-Serves d i p p.packet_id w)

  subscribe-Serves :
      (b : PicoBroker c) (i : ℕ) (p : SubscribePacket c.max_topic_name_length)
      → IsValid b
      → After (Serves b) (handle_subscribe b i p)
  unfolding handle_subscribe
  subscribe-Serves b i p v =
      then-Serves b _ _
        (added (Topics.subscribe b.topics i p.topic_filter)
          (subscribe-Subscribes b.topics i p.topic_filter v.topics))
        λ d _ w. send-Serves d i _ w
    where
      added :
          (m : Step (TopicRegistry c) BrokerError (Unit {0}))
          → Subscribes b.topics i p.topic_filter m
          → After (Serves b) (on_topics b m)
      added (done r _) (ok_r, _) = record {
        valid = record { topics = ok_r; sessions = v.sessions };
        rx = λ j. refl;
      }
      added (fail r _) (ok_r, _) = record {
        valid = record { topics = ok_r; sessions = v.sessions };
        rx = λ j. refl;
      }
      added crash bad = bad

  -- For a valid broker, no packet of a client makes its handler panic, and whether it returns Ok
  -- or an error, the broker is valid after it and every receive queue is as it was.
  pub handle_packet-Serves :
      (b : PicoBroker c) (i : ℕ) (p : Packet c) → IsValid b → After (Serves b) (handle_packet b i p)
  unfolding handle_packet handle_pingreq handle_disconnect mark_session_disconnected
  handle_packet-Serves b i (connect p) v = connect-Serves b i p v
  handle_packet-Serves b i (conn_ack _) v = Serves-self b v
  handle_packet-Serves b i (publish p) v = publish-Serves b i p v
  handle_packet-Serves b i (pub_ack _) v = Serves-self b v
  handle_packet-Serves b i (pub_rec _) v = Serves-self b v
  handle_packet-Serves b i (pub_rel _) v = Serves-self b v
  handle_packet-Serves b i (pub_comp _) v = Serves-self b v
  handle_packet-Serves b i (subscribe p) v = subscribe-Serves b i p v
  handle_packet-Serves b i (sub_ack _) v = Serves-self b v
  handle_packet-Serves b i (unsubscribe _) v = Serves-self b v
  handle_packet-Serves b i (unsub_ack _) v = Serves-self b v
  handle_packet-Serves b i ping_req v = send-Serves b i _ v
  handle_packet-Serves b i ping_resp v = Serves-self b v
  handle_packet-Serves b i disconnect v =
      sessions-Serves b _ v (mark_disconnected-Keeps b.sessions i v.sessions)
