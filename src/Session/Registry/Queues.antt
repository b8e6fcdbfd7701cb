-- ===== src/Session/Registry/Queues.antt =====
-- The packet queues of a session, through the registry.
use picobroker.Base.{
  ℕ, ◌≡◌, refl, ap, ◌∙◌, subst, true, Option, none, some, List, [], ◌∷◌, ◌++◌, ◌==◌, ==→eq,
  if◌then◌else◌, length, Bool-cases, Option-cases, inl, inr, ◌⊎◌,
}
use picobroker.Base.Result.{Step, done, fail, crash, After}
use picobroker.Config.{Config}
use picobroker.Error.{BrokerError, buffer_full, session_not_found, session_queue_full}
use picobroker.Heapless
use picobroker.Heapless.{as_slice}
use picobroker.Heapless.Laws
use picobroker.Heapless.Laws.{push-Pushes, dequeue_front-Dequeues}
use picobroker.Session.{Session, Packet, Queue, flatten_option}
use picobroker.Session
use picobroker.Session.Registry.{
  SessionRegistry, find_session, write_session, on_session, queue_tx_packet,
}
use picobroker.Session.Registry.Slots.{AllPackets, SessionIsValid}
use picobroker.Session.Registry.Laws.{
  IsValid, find_session_found, write_session_lem, Keeps, on_session-Keeps,
}

pub AllPackets-append :
    {A : Type 0} (os : List (Option A)) (a : A) → AllPackets os → AllPackets (os ++ some a ∷ [])
AllPackets-append [] a h = tt
AllPackets-append (none ∷ os) a h = h
AllPackets-append (some b ∷ os) a h = AllPackets-append os a h

abbrev pub append_to : {A : Type 0} → Option (List (Option A)) → A → Option (List (Option A))
append_to none p = none
append_to (some q) p = some (q ++ some p ∷ [])

module _ {c : Config} where
  -- A session that has taken one more packet to send, or has no room for it.
  abbrev pub Queued : Session c → Packet c → Step (Session c) BrokerError (Unit {0}) → Type 0
  Queued s p m =
      ((q : Queue c) × (m ≡ done (record s { tx_queue = q }) tt)
        × Heapless.IsValid q
        × (as_slice q ≡ as_slice s.tx_queue ++ some p ∷ []))
      ⊎ ((m ≡ fail s buffer_full) × (s.tx_queue.length ≡ c.queue_size))

  pub queue_tx_packet-Queued :
      (s : Session c) (p : Packet c) → SessionIsValid s → Queued s p (Session.queue_tx_packet s p)
  unfolding Session.queue_tx_packet
  queue_tx_packet-Queued s p v = elim (push-Pushes s.tx_queue (some p) v.tx) [
    | inl (q, e, w, lt, app) ↦ inl (q, rw e, w, app)
    | inr (e, full) ↦ inr (rw e, full)
  ]

  queued_valid :
      (s : Session c) (p : Packet c) (q : Queue c)
      → SessionIsValid s
      → Heapless.IsValid q
      → as_slice q ≡ as_slice s.tx_queue ++ some p ∷ []
      → SessionIsValid (record s { tx_queue = q })
  queued_valid s p q w ok_q app = record {
    rx = w.rx;
    tx = ok_q;
    rx_packets = w.rx_packets;
    tx_packets = rw app (AllPackets-append (as_slice s.tx_queue) p w.tx_packets);
  }

  -- Queueing a packet to be sent keeps the registry valid and every receive queue as it is.
  pub queue_tx_packet-Keeps :
      (r : SessionRegistry c) (i : ℕ) (p : Packet c)
      → IsValid r
      → After (Keeps r) (queue_tx_packet r i p)
  unfolding queue_tx_packet
  queue_tx_packet-Keeps r i p v = on_session-Keeps r i _ v λ s w.
      elim (queue_tx_packet-Queued s p w) [
        | inl (q, e, ok_q, app) ↦ rw e (queued_valid s p q w ok_q app, refl, refl)
        | inr (e, full) ↦ rw e (w, refl, refl)
      ]

  -- The transmit queue of a session, as the list of its slots.
  pub tx_of : SessionRegistry c → ℕ → Option (List (Option (Packet c)))
  tx_of r i = elim (find_session r i) [ none ↦ none | some s ↦ some (as_slice s.tx_queue) ]

  pub tx_of_found :
      (r : SessionRegistry c) (i : ℕ) {s : Session c}
      → find_session r i ≡ some s
      → tx_of r i ≡ some (as_slice s.tx_queue)
  unfolding tx_of
  tx_of_found r i e = rw (e, tx_of)

  pub tx_of_missing : (r : SessionRegistry c) (i : ℕ) → find_session r i ≡ none → tx_of r i ≡ none
  unfolding tx_of
  tx_of_missing r i e = rw (e, tx_of)

  pub tx_of_write :
      (r r' : SessionRegistry c) (i j : ℕ) (s t : Session c)
      → find_session r i ≡ some s
      → find_session r' j ≡ (if i == j then some t else find_session r j)
      → tx_of r' j ≡ (if i == j then some (as_slice t.tx_queue) else tx_of r j)
  tx_of_write r r' i j s t e f = elim (Bool-cases (i == j)) [
    | inl hit ↦ rw hit (tx_of_found r' j (rw hit at f))
    | inr miss ↦
        let same : find_session r' j ≡ find_session r j = rw miss at f in
        unfold tx_of in rw (miss, same, tx_of)
  ]

  pub tx_of_at :
      (r : SessionRegistry c) (i j : ℕ) (s : Session c)
      → find_session r i ≡ some s
      → (i == j) ≡ true
      → tx_of r j ≡ some (as_slice s.tx_queue)
  tx_of_at r i j s e h = tx_of_found r j (subst (λ k. find_session r k ≡ some s) (==→eq i j h) e)

  -- What queueing a packet for a session does: the packet is at the end of that session's transmit
  -- queue, or the queues are as before, and the session is missing or its queue is full.
  abbrev pub QueuesTx :
      SessionRegistry c → ℕ → Packet c → Step (SessionRegistry c) BrokerError (Unit {0}) → Type 0
  QueuesTx r i p (done r' _) =
      IsValid r' × ((j : ℕ) → tx_of r' j ≡ (if i == j then append_to (tx_of r j) p else tx_of r j))
  QueuesTx r i p (fail r' e) =
      IsValid r'
      × ((j : ℕ) → tx_of r' j ≡ tx_of r j)
      × (((tx_of r i ≡ none) × (e ≡ session_not_found i))
          ⊎ ((q : List (Option (Packet c))) × (tx_of r i ≡ some q)
              × (length q ≡ c.queue_size)
              × (e ≡ session_queue_full i c.queue_size)))
  QueuesTx r i p crash = ⊥

  -- On a valid session registry, queue_tx_packet does not panic and leaves the registry valid.
  -- Where it returns Ok, the packet is at the end of the transmit queue of that session and no
  -- other transmit queue has changed. Where it returns an error, no transmit queue has changed,
  -- and the session does not exist (SessionNotFound) or its queue has queue_size packets
  -- (SessionQueueFull).
  pub queue_tx_packet_lem :
      (r : SessionRegistry c) (i : ℕ) (p : Packet c)
      → IsValid r
      → QueuesTx r i p (queue_tx_packet r i p)
  unfolding queue_tx_packet on_session
  queue_tx_packet_lem r i p v = elim (Option-cases (find_session r i)) [
    | inl e ↦ rw (e, queue_tx_packet, on_session) (v, λ j. refl, inl (tx_of_missing r i e, refl))
    | inr (s, e) ↦
        let (w, same) = find_session_found r i v e in
        elim (queue_tx_packet-Queued s p w) [
          | inl (q, m, ok_q, app) ↦
              let t : Session c = record s { tx_queue = q } in
              let (v', found) = write_session_lem r i t v e same (queued_valid s p q w ok_q app) in
              rw (e, queue_tx_packet, on_session, m)
                (
                  v',
                  λ j.
                      tx_of_write r (write_session r i t) i j s t e (found j)
                      ∙ elim (Bool-cases (i == j)) [
                        | inl hit ↦ rw (hit, tx_of_at r i j s e hit) (ap some app)
                        | inr miss ↦ rw miss refl
                      ],
                )
          | inr (m, full) ↦
              let (v', found) = write_session_lem r i s v e same w in
              rw (e, queue_tx_packet, on_session, m)
                (
                  v',
                  λ j.
                      tx_of_write r (write_session r i s) i j s s e (found j)
                      ∙ elim (Bool-cases (i == j)) [
                        | inl hit ↦ rw (hit, tx_of_at r i j s e hit) refl
                        | inr miss ↦ rw miss refl
                      ],
                  inr (
                    as_slice s.tx_queue,
                    tx_of_found r i e,
                    (Heapless.Laws.length-as_slice s.tx_queue w.tx ∙ full),
                    refl,
                  ),
                )
        ]
  ]
