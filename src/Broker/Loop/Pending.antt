-- ===== src/Broker/Loop/Pending.antt =====
-- `get_sessions_with_pending_packets`: which sessions have packets to be sent.
use picobroker.Base.{
  ℕ, ◌+◌, ◌≤◌, ◌≡◌, refl, sym, ap, ◌∙◌, subst, arith, Bool, true, false, ◌&&◌, ==_self, ◌==◌, ==→eq,
  List, [], ◌∷◌, ◌++◌, append_assoc, append-nil, length, length-append, select, Bool-cases,
  Option-cases, inl, inr,
}
use picobroker.Base.Result.{done}
use picobroker.Broker.{PicoBroker, get_all_sessions}
use picobroker.Broker.Invariant.{IsValid}
use picobroker.Broker.Loop.{collect_pending, get_sessions_with_pending_packets}
use picobroker.Config.{Config}
use picobroker.Heapless
use picobroker.Heapless.{HeaplessVec, as_slice}
use picobroker.Heapless.Laws.{new_lem, push-Pushes, length-as_slice}
use picobroker.Session.Registry.{
  SessionRegistry, ids_of, live_sessions, find_session, has_pending_tx_packets,
}
use picobroker.Session.Registry.Listing.{length-live_ids, get_all_sessions_lem, find_session-listed}
use picobroker.Topics.{contains}

module _ {c : Config} where
  collect_pending_lem :
      (E : Type 0) (b : PicoBroker c) (ids : List ℕ) (v : HeaplessVec ℕ c.max_sessions)
      → Heapless.IsValid v
      → length (as_slice v) + length ids ≤ c.max_sessions
      → (w : HeaplessVec ℕ c.max_sessions) × (collect_pending {E = E} b ids v ≡ done w tt)
        × Heapless.IsValid w
        × (as_slice w ≡ as_slice v ++ select (has_pending_tx_packets b.sessions) ids)
  unfolding collect_pending
  collect_pending_lem E b [] v ok h = (v, refl, ok, sym (append-nil (as_slice v)))
  collect_pending_lem E b (i ∷ ids) v ok h =
      elim (Bool-cases (has_pending_tx_packets b.sessions i)) [
        | inl yes_i ↦ elim (push-Pushes v i ok) [
          | inl (w, m, ok_w, lt, app) ↦
              let (u, e, ok_u, all) =
                collect_pending_lem E b ids w ok_w
                  (omega (arith, ap length app, length-append (as_slice v) (i ∷ []))) in
              (
                u,
                rw (collect_pending, yes_i, m) e,
                ok_u,
                rw yes_i (
                    all
                    ∙ ap (λ k. k ++ select (has_pending_tx_packets b.sessions) ids) app
                    ∙ append_assoc (as_slice v) (i ∷ [])
                        (select (has_pending_tx_packets b.sessions) ids)),
              )
          | inr (m, full) ↦ absurd (omega (arith, length-as_slice v ok))
        ]
        | inr no_i ↦
            let (u, e, ok_u, all) = collect_pending_lem E b ids v ok (omega arith) in
            (u, rw (collect_pending, no_i) e, ok_u, rw no_i all)
      ]

  pub get_sessions_with_pending_packets_lem :
      (E : Type 0) (b : PicoBroker c)
      → IsValid b
      → (w : HeaplessVec ℕ c.max_sessions) × (get_sessions_with_pending_packets {E = E} b
          ≡ done w tt)
        × (as_slice w
            ≡ select (has_pending_tx_packets b.sessions) (ids_of (live_sessions b.sessions)))
  unfolding get_sessions_with_pending_packets get_all_sessions
  get_sessions_with_pending_packets_lem E b v =
      let listed = get_all_sessions_lem b.sessions v.sessions in
      let (ok_new, empty) = new_lem {T = ℕ} {N = c.max_sessions} 0 v.sessions.vec.fits in
      let (w, e, _, all) =
        collect_pending_lem E b (ids_of (live_sessions b.sessions)) (Heapless.new 0) ok_new
          (omega (arith, ap length empty, length-live_ids b.sessions v.sessions)) in
      (
        w,
        rw (get_sessions_with_pending_packets, listed) e,
        all
            ∙ ap
                (λ k.
                  k
                  ++ select (has_pending_tx_packets b.sessions) (ids_of (live_sessions b.sessions)))
                empty,
      )

and_true : (b : Bool) → (b && true) ≡ b
and_true true = refl
and_true false = refl

contains-select :
    (f : ℕ → Bool) (ids : List ℕ) (j : ℕ) → contains j (select f ids) ≡ (f j && contains j ids)
contains-select f [] j = ground arith
contains-select f (i ∷ ids) j = elim (Bool-cases (i == j)) [
  | inl hit ↦
      subst (λ k. contains k (select f (i ∷ ids)) ≡ (f k && contains k (i ∷ ids))) (==→eq i j hit)
        (elim (Bool-cases (f i)) [
          | inl on ↦ rw (on, ==_self i) refl
          | inr off ↦ rw off (rw off at (contains-select f ids i))
        ])
  | inr miss ↦ elim (Bool-cases (f i)) [
    | inl on ↦ rw (on, miss) (contains-select f ids j)
    | inr off ↦ rw (off, miss) (contains-select f ids j)
  ]
]

module _ {c : Config} where
  -- A session is in the list exactly if it has packets to be sent.
  pub contains-pending :
      (r : SessionRegistry c) (j : ℕ)
      → contains j (select (has_pending_tx_packets r) (ids_of (live_sessions r)))
        ≡ has_pending_tx_packets r j
  unfolding has_pending_tx_packets
  contains-pending r j =
      contains-select (has_pending_tx_packets r) (ids_of (live_sessions r)) j ∙ listed
    where
      listed :
          (has_pending_tx_packets r j && contains j (ids_of (live_sessions r)))
          ≡ has_pending_tx_packets r j
      listed = elim (Option-cases (find_session r j)) [
        | inl e ↦ rw (has_pending_tx_packets, e) refl
        | inr (s, e) ↦ rw (find_session-listed r j e) (and_true (has_pending_tx_packets r j))
      ]
