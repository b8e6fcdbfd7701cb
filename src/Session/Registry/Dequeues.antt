-- ===== src/Session/Registry/Dequeues.antt =====
-- Taking packets off the queues of a session, through the registry.
use picobroker.Base.{
  ℕ, ◌≡◌, refl, ap, ◌∙◌, subst, false, Option, none, some, List, [], ◌∷◌, ◌==◌, ==_self,
  if◌then◌else◌, Bool-cases, Option-cases, inl, inr, ◌⊎◌,
}
use picobroker.Base.Result.{Step, done, fail, crash}
use picobroker.Config.{Config}
use picobroker.Error.{BrokerError, session_not_found}
use picobroker.Heapless
use picobroker.Heapless.{HeaplessVec, as_slice}
use picobroker.Heapless.Laws.{dequeue_front-Dequeues}
use picobroker.Session.{Session, Packet, Queue, flatten_option}
use picobroker.Session
use picobroker.Session.Registry.{
  SessionRegistry, find_session, write_session, on_session, dequeue_rx_packet, dequeue_tx_packet,
}
use picobroker.Session.Registry.Slots.{AllPackets, SessionIsValid}
use picobroker.Session.Registry.Laws.{
  IsValid, find_session_found, write_session_lem, rx_of, rx_of_found, rx_of_missing, rx_of_write,
  rx_of_other, Keeps,
}
use picobroker.Session.Registry.Queues.{tx_of, tx_of_found, tx_of_write, tx_of_at, tx_of_missing}

module _ {A : Type 0} {N : ℕ} where
  -- What a queue gives up: nothing of an empty one, else its first packet.
  abbrev pub Takes :
      HeaplessVec (Option A) N → HeaplessVec (Option A) N × Option (Option A) → Type 0
  Takes q r =
      ((r ≡ (q, none)) × (as_slice q ≡ []))
      ⊎ ((w : HeaplessVec (Option A) N) × (p : A) × (r ≡ (w, some (some p)))
          × Heapless.IsValid w
          × AllPackets (as_slice w)
          × (as_slice q ≡ some p ∷ as_slice w))

  dequeue_front-Takes :
      (q : HeaplessVec (Option A) N)
      → Heapless.IsValid q
      → AllPackets (as_slice q)
      → Takes q (Heapless.dequeue_front q)
  dequeue_front-Takes q v packets = elim (dequeue_front-Dequeues q v) [
    | inl nothing ↦ inl nothing
    | inr (w, o, e, ok_w, app) ↦ taken w o e ok_w app (subst (λ k. AllPackets k) app packets)
  ]
    where
      taken :
          (w : HeaplessVec (Option A) N) (o : Option A)
          → Heapless.dequeue_front q ≡ (w, some o)
          → Heapless.IsValid w
          → as_slice q ≡ o ∷ as_slice w
          → AllPackets (o ∷ as_slice w)
          → Takes q (Heapless.dequeue_front q)
      taken w none e ok_w app h = absurd h
      taken w (some p) e ok_w app h = inr (w, p, e, ok_w, h, app)

module _ {c : Config} where
  -- What taking a packet off a session's receive queue does.
  abbrev pub TakesRx :
      SessionRegistry c → ℕ → Step (SessionRegistry c) BrokerError (Option (Packet c)) → Type 0
  TakesRx r i (done r' none) =
      Keeps r r' × ((q : Queue c) × (rx_of r i ≡ some q) × (as_slice q ≡ []))
  TakesRx r i (done r' (some p)) =
      IsValid r'
      × ((q q' : Queue c) × (rx_of r i ≡ some q)
          × (rx_of r' i ≡ some q')
          × (as_slice q ≡ some p ∷ as_slice q'))
      × ((j : ℕ) → (i == j) ≡ false → rx_of r' j ≡ rx_of r j)
  TakesRx r i (fail r' e) = (r' ≡ r) × (rx_of r i ≡ none) × (e ≡ session_not_found i)
  TakesRx r i crash = ⊥

  -- On a valid session registry, dequeue_rx_packet does not panic. For a session that exists it
  -- takes the packet at the front off that session's receive queue, or gives none if the queue
  -- is empty, and changes no other receive queue; else it returns SessionNotFound and changes
  -- nothing.
  pub dequeue_rx_packet_lem :
      (r : SessionRegistry c) (i : ℕ) → IsValid r → TakesRx r i (dequeue_rx_packet r i)
  unfolding dequeue_rx_packet on_session Session.dequeue_rx_packet
  dequeue_rx_packet_lem r i v = elim (Option-cases (find_session r i)) [
    | inl e ↦ rw (e, dequeue_rx_packet, on_session) (refl, rx_of_missing r i e, refl)
    | inr (s, e) ↦
        let (w, same) = find_session_found r i v e in
        elim (dequeue_front-Takes s.rx_queue w.rx w.rx_packets) [
          | inl (m, empty) ↦
              let (v', found) = write_session_lem r i s v e same w in
              rw (e, dequeue_rx_packet, on_session, m)
                (
                  record {
                    valid = v';
                    rx = λ j. rx_of_write r i j s s (write_session r i s) e refl (found j);
                  },
                  (s.rx_queue, rx_of_found r i e, empty),
                )
          | inr (q, p, m, ok_q, packets, app) ↦
              let t : Session c = record s { rx_queue = q } in
              let ok_t : SessionIsValid t = record {
                rx = ok_q;
                tx = w.tx;
                rx_packets = packets;
                tx_packets = w.tx_packets;
              } in
              let (v', found) = write_session_lem r i t v e same ok_t in
              rw (e, dequeue_rx_packet, on_session, m)
                (
                  v',
                  (
                    s.rx_queue,
                    q,
                    rx_of_found r i e,
                    rx_of_found (write_session r i t) i (rw (==_self i) at (found i)),
                    app,
                  ),
                  λ j miss. rx_of_other r (write_session r i t) i j t (found j) miss,
                )
        ]
  ]

  -- What taking a packet off a session's transmit queue does.
  abbrev pub TakesTx :
      SessionRegistry c → ℕ → Step (SessionRegistry c) BrokerError (Option (Packet c)) → Type 0
  TakesTx r i (done r' none) =
      IsValid r' × (tx_of r i ≡ some []) × ((j : ℕ) → tx_of r' j ≡ tx_of r j)
  TakesTx r i (done r' (some p)) =
      IsValid r'
      × ((q : List (Option (Packet c))) × (tx_of r i ≡ some (some p ∷ q))
          × ((j : ℕ) → tx_of r' j ≡ (if i == j then some q else tx_of r j)))
  TakesTx r i (fail r' e) = (r' ≡ r) × (tx_of r i ≡ none) × (e ≡ session_not_found i)
  TakesTx r i crash = ⊥

  -- On a valid session registry, dequeue_tx_packet does not panic. For a session that exists it
  -- takes the packet at the front off that session's transmit queue, or gives none if the queue
  -- is empty, and changes no other transmit queue; else it returns SessionNotFound and changes
  -- nothing.
  pub dequeue_tx_packet_lem :
      (r : SessionRegistry c) (i : ℕ) → IsValid r → TakesTx r i (dequeue_tx_packet r i)
  unfolding dequeue_tx_packet on_session Session.dequeue_tx_packet
  dequeue_tx_packet_lem r i v = elim (Option-cases (find_session r i)) [
    | inl e ↦ rw (e, dequeue_tx_packet, on_session) (refl, tx_of_missing r i e, refl)
    | inr (s, e) ↦
        let (w, same) = find_session_found r i v e in
        elim (dequeue_front-Takes s.tx_queue w.tx w.tx_packets) [
          | inl (m, empty) ↦
              let (v', found) = write_session_lem r i s v e same w in
              rw (e, dequeue_tx_packet, on_session, m)
                (
                  v',
                  tx_of_found r i e ∙ ap some empty,
                  λ j.
                      tx_of_write r (write_session r i s) i j s s e (found j)
                      ∙ elim (Bool-cases (i == j)) [
                        | inl hit ↦ rw (hit, tx_of_at r i j s e hit) refl
                        | inr miss ↦ rw miss refl
                      ],
                )
          | inr (q, p, m, ok_q, packets, app) ↦
              let t : Session c = record s { tx_queue = q } in
              let ok_t : SessionIsValid t = record {
                rx = w.rx;
                tx = ok_q;
                rx_packets = w.rx_packets;
                tx_packets = packets;
              } in
              let (v', found) = write_session_lem r i t v e same ok_t in
              rw (e, dequeue_tx_packet, on_session, m)
                (
                  v',
                  (
                    as_slice q,
                    tx_of_found r i e ∙ ap some app,
                    λ j. tx_of_write r (write_session r i t) i j s t e (found j),
                  ),
                )
        ]
  ]
