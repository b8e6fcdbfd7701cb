-- ===== src/Broker/Reachable.antt =====
-- The calls of `PicoBroker` as steps from a new broker, and the invariant over all of them.
use picobroker.Base.{List, [], ◌∷◌, subst, sym, ℕ, ◌<◌, ◌≡◌, refl, Option, none, some}
use picobroker.Base.Result.{Step, done, fail, crash, After, After-then_step}
use picobroker.Config.{Config}
use picobroker.Error.{BrokerError}
use picobroker.Heapless.{u16_mod}
use picobroker.Session.{Packet}
use picobroker.Session.Registry.{SessionRegistry}
use picobroker.Session.Registry.Laws as SessionLaws
use picobroker.Session.Registry.Members.{mark_disconnected-Keeps, update_session_activity-Keeps}
use picobroker.Session.Registry.Arrivals as Arrivals
use picobroker.Session.Registry.Arrivals.{
  queue_rx_packet-IsValid, Registers, register_new_session_lem,
}
use picobroker.Session.Registry.Dequeues.{TakesTx, dequeue_tx_packet_lem}
use picobroker.Topics.Registry as TopicLaws
use picobroker.Broker.{
  PicoBroker, on_sessions, new, register_new_session, mark_session_disconnected, remove_session,
  queue_packet_received_from_client, dequeue_packet_to_send_to_client,
}
use picobroker.Broker.Invariant.{IsValid, Serves, sessions-Serves}
use picobroker.Broker.Loop.{process_all_session_packets}
use picobroker.Broker.Loop.Processing.{process_all_session_packets-IsValid}
use picobroker.Broker.Removal.{remove_session-forgets}

-- The capacities that are lengths of vectors fit a u16.
pub record Fits (c : Config) : Type 0 where
  pub sessions : c.max_sessions < u16_mod
  pub queue : c.queue_size < u16_mod
  pub topics : c.max_topics < u16_mod
  pub subscribers : c.max_subscribers_per_topic < u16_mod

-- The calls that change the broker.
pub data Call (c : Config) : Type 0 where
  register : ℕ → ℕ → ℕ → Call c
  disconnect_session remove : ℕ → Call c
  receive : ℕ → Packet c → ℕ → Call c
  send_next : ℕ → Call c
  process : Call c

-- The state that a call leaves, with its result or its error; none after a panic.
abbrev pub state_after : {S E A : Type 0} → Step S E A → Option S
state_after (done s a) = some s
state_after (fail s e) = some s
state_after crash = none

pub call : {c : Config} → Call c → PicoBroker c → Option (PicoBroker c)
call (register i secs now) b = state_after (register_new_session b i secs now)
call (disconnect_session i) b = state_after (mark_session_disconnected b i)
call (remove i) b = state_after (remove_session b i)
call (receive i p now) b = state_after (queue_packet_received_from_client b i p now)
call (send_next i) b = state_after (dequeue_packet_to_send_to_client b i)
call process b = state_after (process_all_session_packets b)

pub run : {c : Config} → List (Call c) → PicoBroker c → Option (PicoBroker c)
unfolding call
run [] b = some b
run (k ∷ ks) b = elim (call k b) [ none ↦ none | some b' ↦ run ks b' ]

module _ {c : Config} where
  new-IsValid : Fits c → IsValid (new {c = c})
  unfolding new
  new-IsValid f = record {
    topics = TopicLaws.default_registry-IsValid f.topics f.subscribers;
    sessions = Arrivals.default_registry-IsValid f.sessions;
  }

  ends :
      {A : Type 0} (m : Step (PicoBroker c) BrokerError A)
      → After IsValid m
      → (b' : PicoBroker c) × (state_after m ≡ some b') × IsValid b'
  ends (done b' a) v = (b', refl, v)
  ends (fail b' e) v = (b', refl, v)
  ends crash v = absurd v

  with_sessions :
      {A : Type 0} (b : PicoBroker c) (m : Step (SessionRegistry c) BrokerError A)
      → IsValid b
      → After SessionLaws.IsValid m
      → After IsValid (on_sessions b m)
  with_sessions b (done r a) v w = record { topics = v.topics; sessions = w }
  with_sessions b (fail r e) v w = record { topics = v.topics; sessions = w }
  with_sessions b crash v w = w

  only_valid :
      {A : Type 0} (b : PicoBroker c) (m : Step (PicoBroker c) BrokerError A)
      → After (Serves b) m
      → After IsValid m
  only_valid b (done b' a) s = s.valid
  only_valid b (fail b' e) s = s.valid
  only_valid b crash s = s

  pub queue_packet_received_from_client-IsValid :
      (b : PicoBroker c) (i : ℕ) (p : Packet c) (now : ℕ)
      → IsValid b
      → After IsValid (queue_packet_received_from_client b i p now)
  unfolding queue_packet_received_from_client
  queue_packet_received_from_client-IsValid b i p now v =
      After-then_step IsValid IsValid _ _
        (only_valid b _
          (sessions-Serves b _ v (update_session_activity-Keeps b.sessions i now v.sessions)))
        (λ d w. w) λ d _ w. with_sessions d _ w (queue_rx_packet-IsValid d.sessions i p w.sessions)

  registered :
      (r : SessionRegistry c) (i secs now : ℕ) (m : Step (SessionRegistry c) BrokerError (Unit {0}))
      → SessionLaws.IsValid r
      → Registers r i secs now m
      → After SessionLaws.IsValid m
  registered r i secs now (done r' u) v (w, _, _) = w
  registered r i secs now (fail r' e) v same = subst (λ k. SessionLaws.IsValid k) (sym same) v
  registered r i secs now crash v bad = bad

  taken :
      (r : SessionRegistry c) (i : ℕ) (m : Step (SessionRegistry c) BrokerError (Option (Packet c)))
      → SessionLaws.IsValid r
      → TakesTx r i m
      → After SessionLaws.IsValid m
  taken r i (done r' none) v (w, _, _) = w
  taken r i (done r' (some p)) v (w, _) = w
  taken r i (fail r' e) v (same, _, _) = subst (λ k. SessionLaws.IsValid k) (sym same) v
  taken r i crash v bad = bad

  call-IsValid :
      (k : Call c) (b : PicoBroker c)
      → Fits c
      → IsValid b
      → (b' : PicoBroker c) × (call k b ≡ some b') × IsValid b'
  unfolding call register_new_session mark_session_disconnected dequeue_packet_to_send_to_client
  call-IsValid (register i secs now) b f v = ends _ (
      with_sessions b _ v (
        registered b.sessions i secs now _ v.sessions
          (register_new_session_lem b.sessions i secs now f.queue v.sessions)))
  call-IsValid (disconnect_session i) b f v =
      ends _
        (only_valid b _ (sessions-Serves b _ v (mark_disconnected-Keeps b.sessions i v.sessions)))
  call-IsValid (remove i) b f v =
      let (b', was, e, v', _, _) = remove_session-forgets b i v in (b', rw e refl, v')
  call-IsValid (receive i p now) b f v =
      ends _ (queue_packet_received_from_client-IsValid b i p now v)
  call-IsValid (send_next i) b f v = ends _ (
      with_sessions b _ v
        (taken b.sessions i _ v.sessions (dequeue_tx_packet_lem b.sessions i v.sessions)))
  call-IsValid process b f v = ends _ (process_all_session_packets-IsValid b v)

  run_from :
      (ks : List (Call c)) (b : PicoBroker c)
      → Fits c
      → IsValid b
      → (b' : PicoBroker c) × (run ks b ≡ some b') × IsValid b'
  unfolding run
  run_from [] b f v = (b, refl, v)
  run_from (k ∷ ks) b f v =
      let (d, e, w) = call-IsValid k b f v in
      let (b', e', w') = run_from ks d f w in (b', rw (run, e) e', w')

  -- If the capacities fit a u16, any sequence of calls on a new broker (registering and removing
  -- sessions, marking them disconnected, packets received, packets taken to be sent, processing)
  -- runs without a panic, whatever errors the calls return, and ends in a valid broker.
  pub run-IsValid :
      (ks : List (Call c)) → Fits c → (b' : PicoBroker c) × (run ks new ≡ some b') × IsValid b'
  run-IsValid ks f = run_from ks new f (new-IsValid f)
