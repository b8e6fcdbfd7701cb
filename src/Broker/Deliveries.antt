-- ===== src/Broker/Deliveries.antt =====
-- `deliver` and `acknowledge`: what they add to the transmit queues.
use picobroker.Base.{
  ℕ, ◌≡◌, refl, ap, ◌∙◌, subst, ◌==◌, ==→eq, Bool, true, false, if◌then◌else◌, Option, none, some,
  List, [], ◌∷◌, Bool-cases, Option-cases, inl, inr,
}
use picobroker.Base.Result.{Step, done, fail, crash, then_step}
use picobroker.Config.{Config}
use picobroker.Error.{BrokerError}
use picobroker.Packets
use picobroker.Packets.{PublishPacket, publish, pub_ack}
use picobroker.Protocol.{at_most_once, qos_lt}
use picobroker.Session.{Packet}
use picobroker.Session.Registry
use picobroker.Session.Registry.{SessionRegistry}
use picobroker.Session.Registry.Queues.{tx_of, append_to, QueuesTx, queue_tx_packet_lem}
use picobroker.Topics.{contains}
use picobroker.Topics.Subscribers.{Distinct}
use picobroker.Broker.{PicoBroker, on_sessions, send, deliver, acknowledge}
use picobroker.Broker.Invariant.{IsValid, deliver-then}

-- The acknowledgement that a published packet asks for.
abbrev pub wants_ack : {L P : ℕ} → PublishPacket L P → Option ℕ
wants_ack p = elim p.packet_id [
  | none ↦ none
  | some packet_id ↦ if qos_lt at_most_once p.qos then some packet_id else none
]

abbrev pub append_ack :
    {L P : ℕ}
    → Bool
    → Option (List (Option (Packets.Packet L P)))
    → Option ℕ
    → Option (List (Option (Packets.Packet L P)))
append_ack true q (some packet_id) = append_to q (pub_ack packet_id)
append_ack _ q _ = q

no_ack :
    {L P : ℕ} (t : Bool) (q : Option (List (Option (Packets.Packet L P)))) → q ≡ append_ack t q none
no_ack true q = refl
no_ack false q = refl

module _ {c : Config} where
  -- A packet for one session.
  abbrev Sends : PicoBroker c → ℕ → Packet c → Step (PicoBroker c) BrokerError (Unit {0}) → Type 0
  Sends b i p (done b' _) =
      IsValid b'
      × ((j : ℕ)
          → tx_of b'.sessions j
            ≡ (if i == j then append_to (tx_of b.sessions j) p else tx_of b.sessions j))
  Sends b i p (fail b' e) = IsValid b'
  Sends b i p crash = ⊥

  send-Sends : (b : PicoBroker c) (i : ℕ) (p : Packet c) → IsValid b → Sends b i p (send b i p)
  send-Sends b i p v =
      sent (Registry.queue_tx_packet b.sessions i p) (queue_tx_packet_lem b.sessions i p v.sessions)
    where
      sent :
          (m : Step (SessionRegistry c) BrokerError (Unit {0}))
          → QueuesTx b.sessions i p m
          → Sends b i p (on_sessions b m)
      sent (done r u) (ok_r, q) = (record { topics = v.topics; sessions = ok_r }, q)
      sent (fail r e) (ok_r, q, _) = record { topics = v.topics; sessions = ok_r }
      sent crash bad = bad

  -- A packet for the sessions of a list.
  abbrev pub SendsAll :
      PicoBroker c → List ℕ → Packet c → Step (PicoBroker c) BrokerError (Unit {0}) → Type 0
  SendsAll b ids p (done b' _) =
      IsValid b'
      × ((j : ℕ)
          → tx_of b'.sessions j
            ≡ (if contains j ids then append_to (tx_of b.sessions j) p else tx_of b.sessions j))
  SendsAll b ids p (fail b' e) = IsValid b'
  SendsAll b ids p crash = ⊥

  pub deliver-SendsAll :
      (b : PicoBroker c) (p : PublishPacket c.max_topic_name_length c.max_payload_size)
      (ids : List ℕ)
      → Distinct ids
      → IsValid b
      → SendsAll b ids (publish p) (deliver b p ids)
  unfolding deliver
  deliver-SendsAll b p [] d v = (v, λ j. refl)
  deliver-SendsAll b p (i ∷ ids) (new_one, d) v = rw (deliver-then b p i ids) (
      first (send b i (publish p)) (send-Sends b i (publish p) v)
        λ b' w. deliver-SendsAll b' p ids d w)
    where
      both :
          (b' b'' : PicoBroker c) (j : ℕ)
          → tx_of b'.sessions j
            ≡ (if i == j then append_to (tx_of b.sessions j) (publish p) else tx_of b.sessions j)
          → tx_of b''.sessions j ≡ (
              if contains j ids
              then append_to (tx_of b'.sessions j) (publish p)
              else tx_of b'.sessions j)
          → tx_of b''.sessions j ≡ (
              if contains j (i ∷ ids)
              then append_to (tx_of b.sessions j) (publish p)
              else tx_of b.sessions j)
      both b' b'' j h k = elim (Bool-cases (i == j)) [
        | inl hit ↦
            let absent : contains j ids ≡ false =
              subst (λ t. contains t ids ≡ false) (==→eq i j hit) new_one in
            rw hit ((rw absent at k) ∙ (rw hit at h))
        | inr miss ↦
            rw miss
              (k ∙ ap (λ t. if contains j ids then append_to t (publish p) else t) (rw miss at h))
      ]

      rest :
          (b' : PicoBroker c)
          → ((j : ℕ)
              → tx_of b'.sessions j ≡ (
                  if i == j
                  then append_to (tx_of b.sessions j) (publish p)
                  else tx_of b.sessions j))
          → (m : Step (PicoBroker c) BrokerError (Unit {0})) → SendsAll b' ids (publish p) m
          → SendsAll b (i ∷ ids) (publish p) m
      rest b' h (done b'' u) (w, k) = (w, λ j. both b' b'' j (h j) (k j))
      rest b' h (fail b'' e) w = w
      rest b' h crash bad = bad

      first :
          (m : Step (PicoBroker c) BrokerError (Unit {0}))
          → Sends b i (publish p) m
          → ((b' : PicoBroker c) → IsValid b' → SendsAll b' ids (publish p) (deliver b' p ids))
          → SendsAll b (i ∷ ids) (publish p) (then_step m (λ b' _. deliver b' p ids))
      first (done b' u) (w, h) again = rest b' h (deliver b' p ids) (again b' w)
      first (fail b' e) w again = w
      first crash bad again = bad

  abbrev pub Acks :
      PicoBroker c → ℕ → Option ℕ → Step (PicoBroker c) BrokerError (Unit {0}) → Type 0
  Acks b i ack (done b' _) =
      IsValid b' × ((j : ℕ) → tx_of b'.sessions j ≡ append_ack (i == j) (tx_of b.sessions j) ack)
  Acks b i ack (fail b' e) = IsValid b'
  Acks b i ack crash = ⊥

  sent_ack :
      (b : PicoBroker c) (i k : ℕ) (m : Step (PicoBroker c) BrokerError (Unit {0}))
      → Sends b i (pub_ack k) m
      → Acks b i (some k) m
  sent_ack b i k (done b' u) (w, h) = (w, λ j. h j ∙ by_id (i == j) (tx_of b.sessions j))
    where
      by_id :
          (t : Bool) (q : Option (List (Option (Packet c))))
          → (if t then append_to q (pub_ack k) else q) ≡ append_ack t q (some k)
      by_id true q = refl
      by_id false q = refl
  sent_ack b i k (fail b' e) w = w
  sent_ack b i k crash bad = bad

  pub acknowledge_lem :
      (b : PicoBroker c) (i : ℕ) (p : PublishPacket c.max_topic_name_length c.max_payload_size)
      → IsValid b
      → Acks b i (wants_ack p) (acknowledge b i p p.packet_id)
  unfolding acknowledge
  acknowledge_lem b i p v = elim (Option-cases p.packet_id) [
    | inl e ↦ rw e (v, λ j. no_ack (i == j) (tx_of b.sessions j))
    | inr (k, e) ↦ elim (Bool-cases (qos_lt at_most_once p.qos)) [
      | inl y ↦ rw (e, y) (sent_ack b i k _ (send-Sends b i (pub_ack k) v))
      | inr n ↦ rw (e, n) (v, λ j. no_ack (i == j) (tx_of b.sessions j))
    ]
  ]
