-- ===== src/Tokio/Handler/Delivery.antt =====
-- From the turn of one connection to the notification of another.
use picobroker.Base.{
  ℕ, ◌≡◌, refl, ap, ◌∙◌, sym, false, some, List, ◌==◌, ==→eq, subst, Bool-cases, inl, inr,
  if◌then◌else◌, map,
}
use picobroker.Base.Result.{Step, done, fail, crash}
use picobroker.Broker.{PicoBroker}
use picobroker.Broker.Invariant.{IsValid}
use picobroker.Config.{Config}
use picobroker.Error.{BrokerError}
use picobroker.Session.{Packet}
use picobroker.Session.Registry.{has_pending_tx_packets}
use picobroker.Session.Registry.Queues.{tx_of}
use picobroker.Topics.{contains}
use picobroker.Tokio.Handler.{receive_packet, receive_notification}
use picobroker.Tokio.Handler.Answers.{TakesAll, receive_notification-TakesAll, queued, emptied}
use picobroker.Tokio.Handler.Turns.{works, Answers, receive_packet-Answers}

module _ {c : Config} where
  -- What waits for the other session, and the queues when both have been emptied.
  abbrev pub Collects :
      ℕ → ℕ → PicoBroker c → Step (PicoBroker c) BrokerError (List (Packet c)) → Type 0
  Collects i j d m =
      (b'' : PicoBroker c) × (packets : List (Packet c)) × (m ≡ done b'' packets)
      × (queued (tx_of d.sessions j) ≡ map some packets)
      × IsValid b''
      × ((k : ℕ)
          → tx_of b''.sessions k ≡ (
              if j == k
              then emptied (tx_of d.sessions k)
              else if i == k
              then emptied (tx_of d.sessions k)
              else tx_of d.sessions k))

  -- The turn of session `i`, and the notification of session `j` after it.
  abbrev pub Passes :
      {E : Type 0}
      → ℕ
      → ℕ
      → Step (PicoBroker c) BrokerError (Unit {0})
      → Step (PicoBroker c) E (List ℕ × List (Packet c))
      → Type 0
  Passes i j (done d _) (done b' (ids, sent)) =
      (contains j ids ≡ has_pending_tx_packets d.sessions j)
      × (queued (tx_of d.sessions i) ≡ map some sent)
      × Collects i j d (receive_notification {E = BrokerError} b' j)
  Passes i j (fail d e) (done b' _) = IsValid b'
  Passes i j _ _ = ⊥

  notified :
      (i j : ℕ) (d b' : PicoBroker c)
      → tx_of b'.sessions j ≡ tx_of d.sessions j
      → ((k : ℕ)
          → tx_of b'.sessions k
            ≡ (if i == k then emptied (tx_of d.sessions k) else tx_of d.sessions k))
      → (m : Step (PicoBroker c) BrokerError (List (Packet c))) → TakesAll {E = BrokerError} b' j m
      → Collects i j d m
  notified i j d b' same left (done b'' packets) (w, all, after) = (
    b'',
    packets,
    refl,
    sym (ap queued same) ∙ all,
    w,
    λ k. elim (Bool-cases (j == k)) [
      | inl hit ↦
          let same_k : tx_of b'.sessions k ≡ tx_of d.sessions k =
            subst (λ n. tx_of b'.sessions n ≡ tx_of d.sessions n) (==→eq j k hit) same in
          rw hit (rw hit at (after k) ∙ ap emptied same_k)
      | inr miss ↦ rw miss (rw miss at (after k) ∙ left k)
    ],
  )
  notified i j d b' same left (fail b'' e) bad = absurd bad
  notified i j d b' same left crash bad = absurd bad

  -- For a valid broker and two different session ids: where the broker queues and processes a
  -- packet of the first without an error, the turn of its connection takes exactly the packets
  -- that then wait in its transmit queue, and names the second among the sessions to notify
  -- exactly if it has packets to be sent; the notification of the second takes exactly the
  -- packets that the broker had left in its transmit queue, in order. The broker is valid after
  -- it, both queues are empty, and every other transmit queue is as the broker left it. Where
  -- the broker returns an error, it is valid after the turn.
  pub receive-Passes :
      (E : Type 0) (b : PicoBroker c) (i j : ℕ) (packet : Packet c) (now : ℕ)
      → IsValid b
      → (i == j) ≡ false
      → Passes {E = E} i j (works b i packet now) (receive_packet b i packet now)
  receive-Passes E b i j packet now v off =
      by_turn (works b i packet now) (receive_packet b i packet now)
        (receive_packet-Answers E b i packet now v)
    where
      by_turn :
          (m : Step (PicoBroker c) BrokerError (Unit {0}))
          (t : Step (PicoBroker c) E (List ℕ × List (Packet c)))
          → Answers i m t
          → Passes i j m t
      by_turn (done d u) (done b' (ids, sent)) ((w, all, left), listed) =
          let same : tx_of b'.sessions j ≡ tx_of d.sessions j = left j ∙ rw off refl in
          (
            listed j,
            all,
            notified i j d b' same left (receive_notification b' j)
                (receive_notification-TakesAll BrokerError b' j w),
          )
      by_turn (fail d e) (done b' (ids, sent)) (w, _, _, _) = w
      by_turn (done d u) (fail b' e) bad = bad
      by_turn (done d u) crash bad = bad
      by_turn (fail d e) (fail b' x) bad = bad
      by_turn (fail d e) crash bad = bad
      by_turn crash t bad = bad
