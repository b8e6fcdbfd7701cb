-- ===== src/Broker/Loop/Draining.antt =====
-- `process_all_session_packets`: what is left of the receive queues after it.
use picobroker.Base.{
  ℕ, zero, suc, ◌≡◌, refl, sym, ap, ◌∙◌, subst, Bool, true, false, ◌==◌, ==→eq, Option, none, some,
  List, [], ◌∷◌, Bool-cases, Option-cases, inl, inr,
}
use mathlib.Core.Option.{some-injective}
use picobroker.Base.Result.{Step, done, fail, crash, After}
use picobroker.Config.{Config}
use picobroker.Error.{BrokerError}
use picobroker.Heapless.{HeaplessVec, as_slice}
use picobroker.Session.{Packet, Queue}
use picobroker.Session.Registry
use picobroker.Session.Registry.{SessionRegistry, somes, find_session, ids_of, live_sessions}
use picobroker.Session.Registry.Laws.{rx_of, rx_of_missing}
use picobroker.Session.Registry.Dequeues.{TakesRx, dequeue_rx_packet_lem}
use picobroker.Session.Registry.Listing.{get_all_sessions_lem, find_session-listed}
use picobroker.Topics.{contains}
use picobroker.Broker.{PicoBroker, on_sessions, handle_packet, get_all_sessions}
use picobroker.Broker.Invariant.{IsValid, Serves, handle_packet-Serves}
use picobroker.Broker.Loop.{drain_session, drain_sessions, process_all_session_packets}
use picobroker.Broker.Loop.Processing.{process_all_session_packets-IsValid}

-- A condition on the state where the call returns Ok.
abbrev OnOk : {S E A : Type 0} → (S → Type 0) → Step S E A → Type 0
OnOk P (done s a) = P s
OnOk P (fail s e) = Unit {0}
OnOk P crash = Unit {0}

same_queue :
    {A : Type 0} {N : ℕ} (q k : HeaplessVec A N)
    → some q ≡ some k
    → as_slice q ≡ []
    → as_slice k ≡ []
same_queue q k e h = ap as_slice (some-injective k q (sym e)) ∙ h

module _ {c : Config} where
  -- No packet waits to be handled in the receive queue of a session.
  abbrev pub IsQuiet : PicoBroker c → ℕ → Type 0
  IsQuiet b j = (q : Queue c) → rx_of b.sessions j ≡ some q → as_slice q ≡ []

  -- A valid broker in which some sessions are quiet, and the receive queues of the others are as
  -- they were.
  record Drains (quiet : ℕ → Bool) (b b' : PicoBroker c) : Type 0 where
    pub valid : IsValid b'
    pub drained : (j : ℕ) → quiet j ≡ true → IsQuiet b' j
    pub others : (j : ℕ) → quiet j ≡ false → rx_of b'.sessions j ≡ rx_of b.sessions j

  drain_session-Drains :
      (fuel : ℕ) (b : PicoBroker c) (i : ℕ)
      → IsValid b
      → OnOk (Drains (λ j. i == j) b) (drain_session fuel b i)
  unfolding drain_session
  drain_session-Drains zero b i v = tt
  drain_session-Drains (suc fuel) b i v =
      round (Registry.dequeue_rx_packet b.sessions i)
        (dequeue_rx_packet_lem b.sessions i v.sessions) (λ d w. drain_session-Drains fuel d i w)
    where
      after :
          (b' : PicoBroker c)
          → ((j : ℕ) → (i == j) ≡ false → rx_of b'.sessions j ≡ rx_of b.sessions j)
          → ((d : PicoBroker c)
              → IsValid d
              → OnOk (Drains (λ j. i == j) d) (drain_session fuel d i))
          → (m : Step (PicoBroker c) BrokerError (Unit {0})) → After (Serves b') m
          → OnOk
              (Drains (λ j. i == j) b)
              (elim m [ crash ↦ crash | fail d e ↦ fail d e | done d _ ↦ drain_session fuel d i ])
      after b' same again (done d u) s = later d s (drain_session fuel d i) (again d s.valid)
        where
          later :
              (d : PicoBroker c)
              → Serves b' d
              → (n : Step (PicoBroker c) BrokerError (Unit {0})) → OnOk (Drains (λ j. i == j) d) n
              → OnOk (Drains (λ j. i == j) b) n
          later d s (done e u) h = record {
            valid = h.valid;
            drained = h.drained;
            others = λ j off. h.others j off ∙ s.rx j ∙ same j off;
          }
          later d s (fail e x) h = tt
          later d s crash h = tt
      after b' same again (fail d e) s = tt
      after b' same again crash s = tt

      round :
          (m : Step (SessionRegistry c) BrokerError (Option (Packet c)))
          → TakesRx b.sessions i m
          → ((d : PicoBroker c)
              → IsValid d
              → OnOk (Drains (λ j. i == j) d) (drain_session fuel d i))
          → OnOk (Drains (λ j. i == j) b) (elim (on_sessions b m) [
            | crash ↦ crash
            | fail b' e ↦ fail b' e
            | done b' none ↦ done b' tt
            | done b' (some packet) ↦ elim (handle_packet b' i packet) [
              | crash ↦ crash
              | fail b'' e ↦ fail b'' e
              | done b'' _ ↦ drain_session fuel b'' i
            ]
          ])
      round (done r none) (k, (q, found, empty)) again = record {
        valid = record { topics = v.topics; sessions = k.valid };
        drained = λ j hit u e.
            same_queue q u (sym found ∙ ap (rx_of b.sessions) (==→eq i j hit) ∙ sym (k.rx j) ∙ e)
              empty;
        others = λ j off. k.rx j;
      }
      round (done r (some p)) (ok_r, _, same) again =
          let b' : PicoBroker c = record b { sessions = r } in
          after b' same again (handle_packet b' i p)
            (handle_packet-Serves b' i p (record { topics = v.topics; sessions = ok_r }))
      round (fail r e) h again = tt
      round crash h again = tt

  drain_sessions-Drains :
      (b : PicoBroker c) (ids : List ℕ)
      → IsValid b
      → OnOk (Drains (λ j. contains j ids) b) (drain_sessions b ids)
  unfolding drain_sessions
  drain_sessions-Drains b [] v = record {
    valid = v;
    drained = λ j no_such. cc;
    others = λ j off. refl;
  }
  drain_sessions-Drains b (i ∷ ids) v =
      next (drain_session (suc c.queue_size) b i) (drain_session-Drains (suc c.queue_size) b i v)
        (λ d w. drain_sessions-Drains d ids w)
    where
      both :
          (d e : PicoBroker c)
          → Drains (λ j. i == j) b d
          → Drains (λ j. contains j ids) d e
          → Drains (λ j. contains j (i ∷ ids)) b e
      both d e h k = record {
        valid = k.valid;
        drained = λ j hit. elim (Bool-cases (contains j ids)) [
          | inl later ↦ k.drained j later
          | inr never ↦ elim (Bool-cases (i == j)) [
            | inl now ↦ λ q f. h.drained j now q (sym (k.others j never) ∙ f)
            | inr off ↦ cc (rw (off, never) at hit)
          ]
        ];
        others = λ j off. elim (Bool-cases (i == j)) [
          | inl now ↦ cc (rw now at off)
          | inr off_i ↦ k.others j (rw off_i at off) ∙ h.others j off_i
        ];
      }

      rest :
          (d : PicoBroker c)
          → Drains (λ j. i == j) b d
          → (m : Step (PicoBroker c) BrokerError (Unit {0}))
          → OnOk (Drains (λ j. contains j ids) d) m
          → OnOk (Drains (λ j. contains j (i ∷ ids)) b) m
      rest d h (done e u) k = both d e h k
      rest d h (fail e x) k = tt
      rest d h crash k = tt

      next :
          (m : Step (PicoBroker c) BrokerError (Unit {0}))
          → OnOk (Drains (λ j. i == j) b) m
          → ((d : PicoBroker c)
              → IsValid d
              → OnOk (Drains (λ j. contains j ids) d) (drain_sessions d ids))
          → OnOk
              (Drains (λ j. contains j (i ∷ ids)) b)
              (elim m [ crash ↦ crash | fail d e ↦ fail d e | done d _ ↦ drain_sessions d ids ])
      next (done d u) h again = rest d h (drain_sessions d ids) (again d h.valid)
      next (fail d e) h again = tt
      next crash h again = tt

  -- Whether every received packet was handled, or an error was returned.
  abbrev pub HandlesAll : Step (PicoBroker c) BrokerError (Unit {0}) → Type 0
  HandlesAll (done b' _) = (j : ℕ) → IsQuiet b' j
  HandlesAll (fail b' e) = IsValid b'
  HandlesAll crash = ⊥

  unlisted-IsQuiet :
      (b b' : PicoBroker c) (j : ℕ)
      → contains j (ids_of (live_sessions b.sessions)) ≡ false
      → rx_of b'.sessions j ≡ rx_of b.sessions j
      → IsQuiet b' j
  unlisted-IsQuiet b b' j off same q f = elim (Option-cases (find_session b.sessions j)) [
    | inl gone ↦ cc (rx_of_missing b.sessions j gone, same, f)
    | inr (s, there) ↦ cc (find_session-listed b.sessions j there, off)
  ]

  listed-IsQuiet :
      (b : PicoBroker c) (m : Step (PicoBroker c) BrokerError (Unit {0}))
      → After IsValid m
      → OnOk (Drains (λ j. contains j (ids_of (live_sessions b.sessions))) b) m
      → HandlesAll m
  listed-IsQuiet b (done b' u) v h = λ j.
      elim (Bool-cases (contains j (ids_of (live_sessions b.sessions)))) [
        | inl on ↦ h.drained j on
        | inr off ↦ unlisted-IsQuiet b b' j off (h.others j off)
      ]
  listed-IsQuiet b (fail b' e) v h = v
  listed-IsQuiet b crash v h = v

  -- For a valid broker, process_all_session_packets does not panic; where it returns Ok, no
  -- packet waits in the receive queue of any session, and where it returns an error, the broker
  -- is valid.
  pub process_all_session_packets-HandlesAll :
      (b : PicoBroker c) → IsValid b → HandlesAll (process_all_session_packets b)
  unfolding process_all_session_packets get_all_sessions
  process_all_session_packets-HandlesAll b v =
      listed-IsQuiet b (process_all_session_packets b) (process_all_session_packets-IsValid b v) (
        subst (λ ids. OnOk (Drains (λ j. contains j ids) b) (process_all_session_packets b))
          (get_all_sessions_lem b.sessions v.sessions)
          (drain_sessions-Drains b (somes (get_all_sessions b)) v))
