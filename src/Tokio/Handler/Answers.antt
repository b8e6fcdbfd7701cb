-- ===== src/Tokio/Handler/Answers.antt =====
-- The packets that a connection takes off its session's transmit queue.
use picobroker.Base.{
  ℕ, zero, suc, ◌≤◌, ◌<◌, ◌≡◌, refl, sym, ap, ◌∙◌, subst, Option, none, some, List, [], ◌∷◌, arith,
  ◌==◌, ==_self, ==→eq, if◌then◌else◌, length, map, Bool-cases, Option-cases, inl, inr,
}
use picobroker.Base.Result.{Step, done, fail, crash, then_step}
use picobroker.Broker.{PicoBroker, on_sessions, dequeue_packet_to_send_to_client}
use picobroker.Broker.Invariant.{IsValid}
use picobroker.Config.{Config}
use picobroker.Error.{BrokerError}
use picobroker.Heapless
use picobroker.Heapless.{as_slice}
use picobroker.Heapless.Laws.{length-as_slice}
use picobroker.Session.{Packet}
use picobroker.Session.Registry
use picobroker.Session.Registry.{SessionRegistry, find_session}
use picobroker.Session.Registry.Laws as SessionLaws
use picobroker.Session.Registry.Laws.{find_session_found}
use picobroker.Session.Registry.Queues.{tx_of, tx_of_found, tx_of_missing}
use picobroker.Session.Registry.Dequeues.{TakesTx, dequeue_tx_packet_lem}
use picobroker.Tokio.Handler.{dequeue_all, receive_notification}

module _ {A : Type 0} where
  -- What waits in a queue, if the session exists, and that queue when all of it is taken.
  abbrev pub queued : Option (List A) → List A
  queued none = []
  queued (some q) = q

  abbrev pub emptied : Option (List A) → Option (List A)
  emptied none = none
  emptied (some q) = some []

module _ {c : Config} where
  -- A valid broker, all packets of the session in order, and no other transmit queue changed.
  abbrev pub TakesAll :
      {E : Type 0} → PicoBroker c → ℕ → Step (PicoBroker c) E (List (Packet c)) → Type 0
  TakesAll b i (done b' packets) =
      IsValid b'
      × (queued (tx_of b.sessions i) ≡ map some packets)
      × ((j : ℕ)
          → tx_of b'.sessions j
            ≡ (if i == j then emptied (tx_of b.sessions j) else tx_of b.sessions j))
  TakesAll b i (fail b' e) = ⊥
  TakesAll b i crash = ⊥

  nothing_taken :
      (r r' : SessionRegistry c) (i : ℕ)
      → queued (tx_of r i) ≡ []
      → ((j : ℕ) → tx_of r' j ≡ tx_of r j)
      → (j : ℕ) → tx_of r' j ≡ (if i == j then emptied (tx_of r j) else tx_of r j)
  nothing_taken r r' i e same j = elim (Bool-cases (i == j)) [
    | inl hit ↦
        rw hit (same j ∙ empty (tx_of r j) (subst (λ k. queued (tx_of r k) ≡ []) (==→eq i j hit) e))
    | inr miss ↦ rw miss (same j)
  ]
    where
      empty : {A : Type 0} → (o : Option (List A)) → queued o ≡ [] → o ≡ emptied o
      empty none h = refl
      empty (some q) h = ap some h

  dequeue_all-TakesAll :
      (E : Type 0) (fuel : ℕ) (b : PicoBroker c) (i : ℕ)
      → IsValid b
      → length (queued (tx_of b.sessions i)) < fuel
      → TakesAll {E = E} b i (dequeue_all fuel b i)
  unfolding dequeue_all dequeue_packet_to_send_to_client
  dequeue_all-TakesAll E zero b i v h = absurd (omega arith)
  dequeue_all-TakesAll E (suc fuel) b i v h =
      round (Registry.dequeue_tx_packet b.sessions i)
        (dequeue_tx_packet_lem b.sessions i v.sessions)
        (λ d w l. dequeue_all-TakesAll E fuel d i w l)
    where
      next :
          (r : SessionRegistry c) (p : Packet c) (q : List (Option (Packet c)))
          → tx_of b.sessions i ≡ some (some p ∷ q)
          → ((j : ℕ) → tx_of r j ≡ (if i == j then some q else tx_of b.sessions j))
          → (m : Step (PicoBroker c) E (List (Packet c))) → TakesAll (record b { sessions = r }) i m
          → TakesAll b i (then_step m λ b'' packets. done b'' (p ∷ packets))
      next r p q found same (done d packets) (w, all, left) =
          let now : tx_of r i ≡ some q = same i ∙ rw (==_self i) refl in
          (
            w,
            ap queued found ∙ ap (◌∷◌ (some p)) (sym (ap queued now) ∙ all),
            λ j. elim (Bool-cases (i == j)) [
              | inl hit ↦
                  let at_j =
                    subst (λ k. tx_of b.sessions k ≡ some (some p ∷ q)) (==→eq i j hit) found in
                  rw (hit, at_j) (left j ∙ rw (hit, rw hit at (same j)) refl)
              | inr miss ↦ rw miss (left j ∙ rw (miss, rw miss at (same j)) refl)
            ],
          )
      next r p q found same (fail d e) bad = bad
      next r p q found same crash bad = bad

      round :
          (m : Step (SessionRegistry c) BrokerError (Option (Packet c)))
          → TakesTx b.sessions i m
          → ((d : PicoBroker c)
              → IsValid d
              → length (queued (tx_of d.sessions i)) < fuel
              → TakesAll {E = E} d i (dequeue_all fuel d i))
          → TakesAll {E = E} b i (elim (on_sessions b m) [
            | crash ↦ crash
            | fail b' _ ↦ done b' []
            | done b' none ↦ done b' []
            | done b' (some packet) ↦
                then_step (dequeue_all fuel b' i) λ b'' packets. done b'' (packet ∷ packets)
          ])
      round (done r none) (w, found, same) again =
          let e = ap queued found in
          (record { topics = v.topics; sessions = w }, e, nothing_taken b.sessions r i e same)
      round (done r (some p)) (w, (q, found, same)) again =
          let d : PicoBroker c = record b { sessions = r } in
          let now : tx_of r i ≡ some q = same i ∙ rw (==_self i) refl in
          next r p q found same (dequeue_all fuel d i) (
            again d (record { topics = v.topics; sessions = w })
              (omega
                (arith, h, ap (λ o. length (queued o)) found, ap (λ o. length (queued o)) now)))
      round (fail r e) (unchanged, missing, _) again =
          let n = ap queued missing in
          (
            record {
              topics = v.topics;
              sessions = subst (λ k. SessionLaws.IsValid k) (sym unchanged) v.sessions;
            },
            n,
            nothing_taken b.sessions r i n λ j. ap (λ k. tx_of k j) unchanged,
          )
      round crash bad again = bad

  -- A queue holds at most `queue_size` packets.
  queued-le :
      (r : SessionRegistry c) (i : ℕ)
      → SessionLaws.IsValid r
      → length (queued (tx_of r i)) ≤ c.queue_size
  queued-le r i v = elim (Option-cases (find_session r i)) [
    | inl e ↦ omega (arith, ap (λ o. length (queued o)) (tx_of_missing r i e))
    | inr (s, e) ↦
        let ok : Heapless.IsValid s.tx_queue = (find_session_found r i v e).0.tx in
        omega (
          arith,
          ap (λ o. length (queued o)) (tx_of_found r i e),
          length-as_slice s.tx_queue ok,
          ok.within,
        )
  ]

  -- For a valid broker, a connection that is notified takes exactly the packets that wait in the
  -- transmit queue of its session, in order; the broker is valid after it, that queue is empty,
  -- and every other transmit queue is as it was.
  pub receive_notification-TakesAll :
      (E : Type 0) (b : PicoBroker c) (i : ℕ)
      → IsValid b
      → TakesAll {E = E} b i (receive_notification b i)
  unfolding receive_notification
  receive_notification-TakesAll E b i v =
      dequeue_all-TakesAll E (suc c.queue_size) b i v
        (omega (arith, queued-le b.sessions i v.sessions))
