-- ===== src/Broker/Publishing.antt =====
-- `handle_publish`: who gets a published packet.
use picobroker.Base.{ℕ, ◌<◌, ◌≡◌, ap, ◌∙◌, ◌==◌, true, if◌then◌else◌, List, length, arith}
use picobroker.Base.Result.{Step, done, fail, crash, then_step}
use picobroker.Config.{Config}
use picobroker.Error.{BrokerError}
use picobroker.Heapless.{as_slice}
use picobroker.Heapless.Laws.{length-as_slice}
use picobroker.Packets.{PublishPacket, publish}
use picobroker.Session.Registry.Queues.{tx_of, append_to}
use picobroker.Text.{as_str}
use picobroker.Topics.{contains}
use picobroker.Topics.Subscribers.{Distinct}
use picobroker.Topics.Delivery.{interested, get_subscribers_lem}
use picobroker.Broker.{PicoBroker, deliver, acknowledge, handle_publish}
use picobroker.Broker.Invariant.{IsValid}
use picobroker.Broker.Deliveries.{
  wants_ack, append_ack, SendsAll, deliver-SendsAll, Acks, acknowledge_lem,
}

module _ {c : Config} where
  -- What handling a published packet does: each session of a duplicate-free list gets it once, at the
  -- end of its transmit queue, and the sender an acknowledgement where one is due.
  abbrev pub Publishes :
      PicoBroker c
      → ℕ
      → PublishPacket c.max_topic_name_length c.max_payload_size
      → Step (PicoBroker c) BrokerError (Unit {0})
      → Type 0
  Publishes b i p (done b' _) =
      (ids : List ℕ) × Distinct ids
      × ((j : ℕ)
          → contains j ids ≡ true
          → interested (as_str p.topic_name) (as_slice b.topics.topics) j ≡ true)
      × (length ids < c.max_subscribers_per_topic
          → (j : ℕ)
          → contains j ids ≡ interested (as_str p.topic_name) (as_slice b.topics.topics) j)
      × ((j : ℕ)
          → tx_of b'.sessions j
            ≡ append_ack (i == j)
                (if contains j ids
                  then append_to (tx_of b.sessions j) (publish p)
                  else tx_of b.sessions j)
                (wants_ack p))
  Publishes b i p (fail b' e) = IsValid b'
  Publishes b i p crash = ⊥

  -- For a valid broker, handle_publish does not panic. Where it returns Ok, there is a list of
  -- sessions without duplicates such that every transmit queue of a session in the list has the
  -- packet once more, at its end, and no other transmit queue has it; behind it the sender has a
  -- PubAck where the packet has an id and its quality of service is above AtMostOnce, and
  -- nothing else is queued. Every session in the list is subscribed under a filter that the
  -- topic matches, and all of those are in the list if it is shorter than
  -- MAX_SUBSCRIBERS_PER_TOPIC. Where it returns an error, the broker is valid.
  pub handle_publish-Publishes :
      (b : PicoBroker c) (i : ℕ) (p : PublishPacket c.max_topic_name_length c.max_payload_size)
      → IsValid b
      → Publishes b i p (handle_publish b i p)
  unfolding handle_publish
  handle_publish-Publishes b i p v =
      let (ids, found, ok_ids, distinct, sound, complete) =
        get_subscribers_lem {E = BrokerError} b.topics p.topic_name v.topics in
      let full = length-as_slice ids ok_ids in
      rw (handle_publish, found)
        (delivered (as_slice ids) distinct sound (λ lt. complete (omega arith))
          (deliver b p (as_slice ids)) (deliver-SendsAll b p (as_slice ids) distinct v))
    where
      acked :
          (ids : List ℕ) (b' : PicoBroker c) (m : Step (PicoBroker c) BrokerError (Unit {0}))
          → Distinct ids
          → ((j : ℕ)
              → contains j ids ≡ true
              → interested (as_str p.topic_name) (as_slice b.topics.topics) j ≡ true)
          → (length ids < c.max_subscribers_per_topic
              → (j : ℕ)
              → contains j ids ≡ interested (as_str p.topic_name) (as_slice b.topics.topics) j)
          → ((j : ℕ)
              → tx_of b'.sessions j ≡ (
                  if contains j ids
                  then append_to (tx_of b.sessions j) (publish p)
                  else tx_of b.sessions j))
          → Acks b' i (wants_ack p) m
          → Publishes b i p m
      acked ids b' (done b'' u) distinct sound complete q (w, k) = (
        ids,
        distinct,
        sound,
        complete,
        λ j. k j ∙ ap (λ t. append_ack (i == j) t (wants_ack p)) (q j),
      )
      acked ids b' (fail b'' e) distinct sound complete q w = w
      acked ids b' crash distinct sound complete q bad = bad

      delivered :
          (ids : List ℕ)
          → Distinct ids
          → ((j : ℕ)
              → contains j ids ≡ true
              → interested (as_str p.topic_name) (as_slice b.topics.topics) j ≡ true)
          → (length ids < c.max_subscribers_per_topic
              → (j : ℕ)
              → contains j ids ≡ interested (as_str p.topic_name) (as_slice b.topics.topics) j)
          → (m : Step (PicoBroker c) BrokerError (Unit {0})) → SendsAll b ids (publish p) m
          → Publishes b i p (then_step m (λ b' _. acknowledge b' i p p.packet_id))
      delivered ids distinct sound complete (done b' u) (w, q) =
          acked ids b' (acknowledge b' i p p.packet_id) distinct sound complete q
            (acknowledge_lem b' i p w)
      delivered ids distinct sound complete (fail b' e) w = w
      delivered ids distinct sound complete crash bad = bad
