-- ===== src/Session/Registry/Arrivals.antt =====
-- New sessions, and packets received for a session.
use picobroker.Base.{
  ℕ, ◌<◌, ◌≡◌, refl, ◌∙◌, false, Option, none, some, List, [], ◌∷◌, ◌++◌, arith, leb, ◌==◌,
  if◌then◌else◌, any, Bool-cases, Option-cases, inl, inr,
}
use picobroker.Base.Result.{Step, done, fail, crash, After, map_step}
use picobroker.Config.{Config}
use picobroker.Error.{BrokerError}
use picobroker.Heapless
use picobroker.Heapless.{as_slice, u16_mod}
use picobroker.Heapless.Laws.{new_lem, push-Pushes}
use picobroker.Session
use picobroker.Session.{Session, Packet, flatten_option}
use picobroker.Session.Registry.{
  SessionRegistry, default_registry, has_id, find_session, write_session, on_session,
  register_new_session, queue_rx_packet,
}
use picobroker.Session.Registry.Slots.{SessionIsValid, SlotsValid, lookup}
use picobroker.Session.Registry.Laws.{IsValid, find_session_found, write_session_lem}
use picobroker.Session.Registry.Queues.{AllPackets-append}

module _ {c : Config} where
  pub default_registry-IsValid : c.max_sessions < u16_mod → IsValid (default_registry {c = c})
  unfolding default_registry
  default_registry-IsValid h =
      let (ok_v, empty) = new_lem {T = Option (Session c)} {N = c.max_sessions} none h in
      record { vec = ok_v; slots = rw empty tt }

  -- A method that keeps a session in order, and its id.
  on_session-IsValid :
      {A : Type 0} (r : SessionRegistry c) (i : ℕ)
      (method : Session c → Step (Session c) BrokerError A)
      → IsValid r
      → ((s : Session c)
          → SessionIsValid s
          → After (λ t. SessionIsValid t × (t.session_id ≡ s.session_id)) (method s))
      → After IsValid (on_session r i method)
  unfolding on_session
  on_session-IsValid {A} r i method v k = elim (Option-cases (find_session r i)) [
    | inl e ↦ rw (e, on_session) v
    | inr (s, e) ↦
        let (w, same) = find_session_found r i v e in
        rw (e, on_session) (kept s (method s) e same (k s w))
  ]
    where
      kept :
          (s : Session c) (m : Step (Session c) BrokerError A)
          → find_session r i ≡ some s
          → s.session_id ≡ i
          → After (λ t. SessionIsValid t × (t.session_id ≡ s.session_id)) m
          → After IsValid (map_step (write_session r i) (λ e. e) m)
      kept s (done t a) e same (w, p) = (write_session_lem r i t v e (p ∙ same) w).0
      kept s (fail t x) e same (w, p) = (write_session_lem r i t v e (p ∙ same) w).0
      kept s crash e same h = h

  pub queue_rx_packet-IsValid :
      (r : SessionRegistry c) (i : ℕ) (p : Packet c)
      → IsValid r
      → After IsValid (queue_rx_packet r i p)
  unfolding queue_rx_packet Session.queue_rx_packet
  queue_rx_packet-IsValid r i p v = on_session-IsValid r i _ v λ s w.
      elim (push-Pushes s.rx_queue (some p) w.rx) [
        | inl (q, e, ok_q, lt, app) ↦ rw e (
          record {
            rx = ok_q;
            tx = w.tx;
            rx_packets = rw app (AllPackets-append (as_slice s.rx_queue) p w.rx_packets);
            tx_packets = w.tx_packets;
          },
          refl,
        )
        | inr (e, full) ↦ rw e (w, refl)
      ]

  any-append :
      (k : ℕ) (s : Session c) (xs : List (Option (Session c)))
      → any (has_id k) xs ≡ false
      → (s.session_id == k) ≡ false
      → any (has_id k) (xs ++ some s ∷ []) ≡ false
  any-append k s [] h d = rw d refl
  any-append k s (none ∷ xs) h d = any-append k s xs h d
  any-append k s (some t ∷ xs) h d = ground (arith, any-append k s xs)

  append-SlotsValid :
      (s : Session c) (xs : List (Option (Session c)))
      → SessionIsValid s
      → lookup s.session_id xs ≡ none
      → SlotsValid xs
      → SlotsValid (xs ++ some s ∷ [])
  append-SlotsValid s [] w h v = (w, refl, tt)
  append-SlotsValid s (none ∷ xs) w h v = absurd v
  append-SlotsValid s (some t ∷ xs) w h (a, b, d) =
      elim (Bool-cases (t.session_id == s.session_id)) [
        | inl same ↦ cc (rw same at h)
        | inr differ ↦ (
          a,
          any-append t.session_id s xs b (ground arith),
          append-SlotsValid s xs w (rw differ at h) d,
        )
      ]

  lookup-append :
      (j : ℕ) (s : Session c) (xs : List (Option (Session c)))
      → lookup s.session_id xs ≡ none
      → SlotsValid xs
      → lookup j (xs ++ some s ∷ []) ≡ (if s.session_id == j then some s else lookup j xs)
  lookup-append j s [] h v = ground arith
  lookup-append j s (none ∷ xs) h v = absurd v
  lookup-append j s (some t ∷ xs) h (a, b, d) = elim (Bool-cases (t.session_id == s.session_id)) [
    | inl same ↦ cc (rw same at h)
    | inr differ ↦
        let ih = lookup-append j s xs (rw differ at h) d in
        elim (Bool-cases (t.session_id == j)) [
          | inl here ↦
              let other : (s.session_id == j) ≡ false = ground arith in rw (here, other) refl
          | inr elsewhere ↦ rw elsewhere ih
        ]
  ]

  -- What registering does: the session is there, new, or the registry is as before.
  abbrev pub Registers :
      SessionRegistry c → ℕ → ℕ → ℕ → Step (SessionRegistry c) BrokerError (Unit {0}) → Type 0
  Registers r i secs t (done r' _) =
      IsValid r'
      × (find_session r i ≡ none)
      × ((j : ℕ)
          → find_session r' j ≡ (if i == j then some (Session.new i secs t) else find_session r j))
  Registers r i secs t (fail r' e) = r' ≡ r
  Registers r i secs t crash = ⊥

  -- On a valid session registry whose queue size fits a u16, register_new_session does not
  -- panic. Where it returns Ok, the session did not exist, it now exists as a new session with
  -- empty queues, every other session is as it was, and the registry is valid. Where it returns
  -- an error, the registry is unchanged.
  pub register_new_session_lem :
      (r : SessionRegistry c) (i secs t : ℕ)
      → c.queue_size < u16_mod
      → IsValid r
      → Registers r i secs t (register_new_session r i secs t)
  unfolding register_new_session find_session Session.new
  register_new_session_lem r i secs t h v =
      elim (Bool-cases (leb c.max_sessions (Heapless.len r.sessions))) [
        | inl no_room ↦ rw (register_new_session, no_room) refl
        | inr room ↦ elim (Option-cases (find_session r i)) [
          | inr (s, e) ↦ rw (register_new_session, room, e) refl
          | inl e ↦ elim (push-Pushes r.sessions (some (Session.new i secs t)) v.vec) [
            | inr (m, full) ↦ rw (register_new_session, room, e, m) refl
            | inl (w, m, ok_w, lt, app) ↦
                let (ok_q, empty) = new_lem {T = Option (Packet c)} {N = c.queue_size} none h in
                let ok_s : SessionIsValid (Session.new {c = c} i secs t) = record {
                  rx = ok_q;
                  tx = ok_q;
                  rx_packets = rw empty tt;
                  tx_packets = rw empty tt;
                } in
                let xs = as_slice r.sessions in
                rw (register_new_session, room, e, m)
                  (
                    record {
                      vec = ok_w;
                      slots = rw app (append-SlotsValid (Session.new i secs t) xs ok_s e v.slots);
                    },
                    e,
                    λ j. rw app (lookup-append j (Session.new i secs t) xs e v.slots),
                  )
          ]
        ]
      ]
