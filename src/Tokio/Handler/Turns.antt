-- ===== src/Tokio/Handler/Turns.antt =====
-- A turn of a connection: a packet is read, the broker works, and its answers are taken.
use picobroker.Base.{ℕ, suc, ◌≡◌, refl, sym, ap, ◌∙◌, subst, some, List, [], ==_self}
use mathlib.Core.Option.{some-injective}
use picobroker.Base.Result.{Step, done, fail, crash, then_step, After, After-then_step}
use picobroker.Broker.{
  PicoBroker, on_sessions, mark_session_disconnected, queue_packet_received_from_client,
}
use picobroker.Broker.Invariant.{IsValid}
use picobroker.Broker.Loop.{process_all_session_packets}
use picobroker.Broker.Loop.Pending.{get_sessions_with_pending_packets_lem, contains-pending}
use picobroker.Broker.Loop.Processing.{process_all_session_packets-IsValid}
use picobroker.Broker.Reachable.{queue_packet_received_from_client-IsValid}
use picobroker.Config.{Config}
use picobroker.Error.{BrokerError}
use picobroker.Heapless.{as_slice}
use picobroker.Session.{Packet, Session, disconnected}
use picobroker.Session.Registry
use picobroker.Session.Registry.{SessionRegistry, find_session, has_pending_tx_packets}
use picobroker.Session.Registry.Laws as SessionLaws
use picobroker.Session.Registry.Members.{Marks, mark_disconnected_lem}
use picobroker.Topics.{contains}
use picobroker.Tokio.Handler.{receive_packet, collect_answers, dequeue_all, receive_notification}
use picobroker.Tokio.Handler.Answers.{TakesAll, receive_notification-TakesAll}

module _ {c : Config} where
  -- What the broker does with a packet of a session.
  abbrev pub works : PicoBroker c → ℕ → Packet c → ℕ → Step (PicoBroker c) BrokerError (Unit {0})
  works b i packet now =
      then_step (queue_packet_received_from_client b i packet now)
        (λ b' _. process_all_session_packets b')

  abbrev pub Answers :
      {E : Type 0}
      → ℕ
      → Step (PicoBroker c) BrokerError (Unit {0})
      → Step (PicoBroker c) E (List ℕ × List (Packet c))
      → Type 0
  Answers i (done d _) (done b' (ids, packets)) =
      TakesAll {E = BrokerError} d i (done b' packets)
      × ((j : ℕ) → contains j ids ≡ has_pending_tx_packets d.sessions j)
  Answers i (fail d e) (done b' (ids, packets)) =
      IsValid b'
      × (ids ≡ [])
      × (packets ≡ [])
      × ((s : Session c) → find_session b'.sessions i ≡ some s → s.state ≡ disconnected)
  Answers _ _ _ = ⊥

  works-IsValid :
      (b : PicoBroker c) (i : ℕ) (packet : Packet c) (now : ℕ)
      → IsValid b
      → After IsValid (works b i packet now)
  works-IsValid b i packet now v =
      After-then_step IsValid IsValid _ _
        (queue_packet_received_from_client-IsValid b i packet now v) (λ d w. w)
        λ d _ w. process_all_session_packets-IsValid d w

  collect_answers-Answers :
      (E : Type 0) (d : PicoBroker c) (i : ℕ)
      → IsValid d
      → Answers {E = E} i (done d tt) (collect_answers d i)
  unfolding collect_answers receive_notification
  collect_answers-Answers E d i v =
      let (pending, e, all) = get_sessions_with_pending_packets_lem E d v in
      rw (collect_answers, e)
        (taken (dequeue_all (suc c.queue_size) d i) (receive_notification-TakesAll E d i v)
          (as_slice pending) λ j. ap (contains j) all ∙ contains-pending d.sessions j)
    where
      taken :
          (m : Step (PicoBroker c) E (List (Packet c)))
          → TakesAll {E = E} d i m
          → (ids : List ℕ) → ((j : ℕ) → contains j ids ≡ has_pending_tx_packets d.sessions j)
          → Answers {E = E} i (done d tt) (then_step m λ b' packets. done b' (ids, packets))
      taken (done b' packets) t ids listed = (t, listed)
      taken (fail b' e) t ids listed = t
      taken crash t ids listed = t

  -- The session of a failed call, if it exists, is marked.
  marked :
      (E : Type 0) (d : PicoBroker c) (i : ℕ) (x : BrokerError)
      → IsValid d
      → Answers {E = E} i (fail d x) (elim (mark_session_disconnected d i) [
        | crash ↦ crash
        | fail b'' _ ↦ done b'' ([], [])
        | done b'' _ ↦ done b'' ([], [])
      ])
  unfolding mark_session_disconnected
  marked E d i x v =
      by_result (Registry.mark_disconnected d.sessions i)
        (mark_disconnected_lem d.sessions i v.sessions)
    where
      by_result :
          (m : Step (SessionRegistry c) BrokerError (Unit {0}))
          → Marks d.sessions i m
          → Answers {E = E} i (fail d x) (elim (on_sessions d m) [
            | crash ↦ crash
            | fail b'' _ ↦ done b'' ([], [])
            | done b'' _ ↦ done b'' ([], [])
          ])
      by_result (done r u) (w, (s, e, found)) = (
        record { topics = v.topics; sessions = w },
        refl,
        refl,
        λ t at.
            ap (λ k. k.state)
              (some-injective t (record s { state = disconnected })
                (sym at ∙ found i ∙ rw (==_self i) refl)),
      )
      by_result (fail r e) (same, gone) = (
        record {
          topics = v.topics;
          sessions = subst (λ k. SessionLaws.IsValid k) (sym same) v.sessions;
        },
        refl,
        refl,
        λ t at. cc (ap (λ k. find_session k i) same, gone, at),
      )
      by_result crash bad = bad

  -- For a valid broker, the turn of a connection that has read a packet does not panic. Where
  -- the broker queues and processes it without an error, the turn takes exactly the packets that
  -- wait in the transmit queue of the session, in order, leaves that queue empty and the other
  -- transmit queues as the broker left them, and notifies exactly the sessions with packets to
  -- be sent. Where the broker returns an error, nothing is taken, nobody is notified, and the
  -- session is marked as disconnected if it exists. The broker is valid after it in both cases.
  pub receive_packet-Answers :
      (E : Type 0) (b : PicoBroker c) (i : ℕ) (packet : Packet c) (now : ℕ)
      → IsValid b
      → Answers {E = E} i (works b i packet now) (receive_packet b i packet now)
  unfolding receive_packet
  receive_packet-Answers E b i packet now v =
      by_result (works b i packet now) (works-IsValid b i packet now v)
    where
      by_result :
          (m : Step (PicoBroker c) BrokerError (Unit {0}))
          → After IsValid m
          → Answers {E = E} i m (elim m [
            | crash ↦ crash
            | fail b' _ ↦ elim (mark_session_disconnected b' i) [
              | crash ↦ crash
              | fail b'' _ ↦ done b'' ([], [])
              | done b'' _ ↦ done b'' ([], [])
            ]
            | done b' _ ↦ collect_answers b' i
          ])
      by_result (done d u) w = collect_answers-Answers E d i w
      by_result (fail d x) w = marked E d i x w
      by_result crash w = w
