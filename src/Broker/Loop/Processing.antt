-- ===== src/Broker/Loop/Processing.antt =====
-- `process_all_session_packets`: the loops end, and they keep the broker in order.
use picobroker.Base.{
  ℕ, zero, suc, ◌≤◌, ◌<◌, sym, ap, ◌∙◌, subst, Option, none, some, List, [], ◌∷◌, length, arith,
  Option-cases, inl, inr,
}
use picobroker.Base.Result.{Step, done, fail, crash, After}
use picobroker.Config.{Config}
use picobroker.Error.{BrokerError}
use picobroker.Heapless
use picobroker.Heapless.{HeaplessVec, as_slice}
use picobroker.Heapless.Laws.{length-as_slice}
use picobroker.Session.{Packet}
use picobroker.Session.Registry
use picobroker.Session.Registry.{SessionRegistry, somes, find_session}
use picobroker.Session.Registry.Laws as SessionLaws
use picobroker.Session.Registry.Laws.{rx_of, rx_of_found, rx_of_missing, find_session_found}
use picobroker.Session.Registry.Dequeues.{TakesRx, dequeue_rx_packet_lem}
use picobroker.Broker.{PicoBroker, on_sessions, handle_packet, get_all_sessions}
use picobroker.Broker.Invariant.{IsValid, Serves, handle_packet-Serves}
use picobroker.Broker.Loop.{drain_session, drain_sessions, process_all_session_packets}

-- How many packets wait in a queue.
abbrev waiting : {A : Type 0} {N : ℕ} → Option (HeaplessVec A N) → ℕ
waiting none = 0
waiting (some q) = length (as_slice q)

module _ {c : Config} where
  waiting_bound :
      (r : SessionRegistry c) (i : ℕ) → SessionLaws.IsValid r → waiting (rx_of r i) ≤ c.queue_size
  waiting_bound r i v = elim (Option-cases (find_session r i)) [
    | inl e ↦ omega (arith, ap waiting (rx_of_missing r i e))
    | inr (s, e) ↦
        let ok : Heapless.IsValid s.rx_queue = (find_session_found r i v e).0.rx in
        omega (arith, ap waiting (rx_of_found r i e), length-as_slice s.rx_queue ok, ok.within)
  ]

  After-packet :
      (fuel : ℕ) (b' : PicoBroker c) (i : ℕ)
      → ((b'' : PicoBroker c) → Serves b' b'' → After IsValid (drain_session fuel b'' i))
      → (m : Step (PicoBroker c) BrokerError (Unit {0})) → After (Serves b') m
      → After IsValid (elim m [
        | crash ↦ crash
        | fail b'' e ↦ fail b'' e
        | done b'' _ ↦ drain_session fuel b'' i
      ])
  After-packet fuel b' i next (done b'' u) h = next b'' h
  After-packet fuel b' i next (fail b'' e) h = h.valid
  After-packet fuel b' i next crash h = h

  drain_session-IsValid :
      (fuel : ℕ) (b : PicoBroker c) (i : ℕ)
      → IsValid b
      → waiting (rx_of b.sessions i) < fuel
      → After IsValid (drain_session fuel b i)
  unfolding drain_session
  drain_session-IsValid zero b i v lt = absurd (omega arith)
  drain_session-IsValid (suc fuel) b i v lt =
      round (Registry.dequeue_rx_packet b.sessions i)
        (dequeue_rx_packet_lem b.sessions i v.sessions)
        (λ b'' w small. drain_session-IsValid fuel b'' i w small)
    where
      round :
          (m : Step (SessionRegistry c) BrokerError (Option (Packet c)))
          → TakesRx b.sessions i m
          → ((b'' : PicoBroker c)
              → IsValid b''
              → waiting (rx_of b''.sessions i) < fuel
              → After IsValid (drain_session fuel b'' i))
          → After IsValid (elim (on_sessions b m) [
            | crash ↦ crash
            | fail b' e ↦ fail b' e
            | done b' none ↦ done b' tt
            | done b' (some packet) ↦ elim (handle_packet b' i packet) [
              | crash ↦ crash
              | fail b'' e ↦ fail b'' e
              | done b'' _ ↦ drain_session fuel b'' i
            ]
          ])
      round (done r none) (k, _) again = record { topics = v.topics; sessions = k.valid }
      round (done r (some p)) (ok_r, (q, q', before, after, app), _) again =
          let b' : PicoBroker c = record b { sessions = r } in
          let v' : IsValid b' = record { topics = v.topics; sessions = ok_r } in
          After-packet fuel b' i
            (λ b'' s.
              again b'' s.valid
                (omega (arith, lt, ap waiting before, ap length app, ap waiting (s.rx i ∙ after))))
            (handle_packet b' i p) (handle_packet-Serves b' i p v')
      round (fail r e) (same, _, _) again = record {
        topics = v.topics;
        sessions = subst (λ k. SessionLaws.IsValid k) (sym same) v.sessions;
      }
      round crash bad again = bad

  drain_sessions-IsValid :
      (b : PicoBroker c) (ids : List ℕ) → IsValid b → After IsValid (drain_sessions b ids)
  unfolding drain_sessions
  drain_sessions-IsValid b [] v = v
  drain_sessions-IsValid b (i ∷ ids) v =
      next (drain_session (suc c.queue_size) b i)
        (drain_session-IsValid (suc c.queue_size) b i v
          (omega (arith, waiting_bound b.sessions i v.sessions)))
        (λ b' w. drain_sessions-IsValid b' ids w)
    where
      next :
          (m : Step (PicoBroker c) BrokerError (Unit {0}))
          → After IsValid m
          → ((b' : PicoBroker c) → IsValid b' → After IsValid (drain_sessions b' ids))
          → After IsValid
              (elim m [ crash ↦ crash | fail b' e ↦ fail b' e | done b' _ ↦ drain_sessions b' ids ])
      next (done b' u) h again = again b' h
      next (fail b' e) h again = h
      next crash h again = h

  -- For a valid broker, process_all_session_packets ends within its fuel (the queue size plus
  -- one for each session), does not panic, and leaves a valid broker, also where it returns an
  -- error.
  pub process_all_session_packets-IsValid :
      (b : PicoBroker c) → IsValid b → After IsValid (process_all_session_packets b)
  unfolding process_all_session_packets
  process_all_session_packets-IsValid b v = drain_sessions-IsValid b (somes (get_all_sessions b)) v
