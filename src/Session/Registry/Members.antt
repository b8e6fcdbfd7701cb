-- ===== src/Session/Registry/Members.antt =====
-- The methods that write one field of a session keep the registry.
use picobroker.Base.{
  ℕ, ◌≡◌, refl, sym, subst, ◌==◌, if◌then◌else◌, some, none, Option-cases, inl, inr,
}
use picobroker.Base.Result.{Step, After, done, fail, crash}
use picobroker.Config.{Config}
use picobroker.Error.{BrokerError}
use picobroker.Heapless
use picobroker.Heapless.{as_slice}
use picobroker.Packets.{ClientId}
use picobroker.Session.{Session, disconnected, update_activity}
use picobroker.Session.Registry.{
  SessionRegistry, mark_connected, mark_disconnected, update_session_activity, update_client_id,
  update_keep_alive, on_session, find_session,
}
use picobroker.Session.Registry.Slots.{AllPackets, SessionIsValid}
use picobroker.Session.Registry.Laws.{
  IsValid, Keeps, on_session-Keeps, find_session_found, write_session_lem,
}

module _ {c : Config} where
  -- A write that leaves the id and the queues of a session alone.
  on_fields-Keeps :
      (r : SessionRegistry c) (i : ℕ) (f : Session c → Session c)
      → ((s : Session c)
          → ((f s).session_id ≡ s.session_id)
            × ((f s).rx_queue ≡ s.rx_queue)
            × ((f s).tx_queue ≡ s.tx_queue))
      → IsValid r
      → After (Keeps r) (on_session r i λ s. done (f s) tt)
  on_fields-Keeps r i f h v = on_session-Keeps r i _ v λ s w.
      let (same, p, q) = h s in
      (
        record {
          rx = subst (λ k. Heapless.IsValid k) (sym p) w.rx;
          tx = subst (λ k. Heapless.IsValid k) (sym q) w.tx;
          rx_packets = subst (λ k. AllPackets (as_slice k)) (sym p) w.rx_packets;
          tx_packets = subst (λ k. AllPackets (as_slice k)) (sym q) w.tx_packets;
        },
        same,
        p,
      )

  pub mark_connected-Keeps :
      (r : SessionRegistry c) (i : ℕ) → IsValid r → After (Keeps r) (mark_connected r i)
  unfolding mark_connected
  mark_connected-Keeps r i v = on_fields-Keeps r i _ (λ s. (refl, refl, refl)) v

  pub mark_disconnected-Keeps :
      (r : SessionRegistry c) (i : ℕ) → IsValid r → After (Keeps r) (mark_disconnected r i)
  unfolding mark_disconnected
  mark_disconnected-Keeps r i v = on_fields-Keeps r i _ (λ s. (refl, refl, refl)) v

  pub update_session_activity-Keeps :
      (r : SessionRegistry c) (i : ℕ) (t : ℕ)
      → IsValid r
      → After (Keeps r) (update_session_activity r i t)
  unfolding update_session_activity update_activity
  update_session_activity-Keeps r i t v = on_fields-Keeps r i _ (λ s. (refl, refl, refl)) v

  pub update_client_id-Keeps :
      (r : SessionRegistry c) (i : ℕ) (client_id : ClientId)
      → IsValid r
      → After (Keeps r) (update_client_id r i client_id)
  unfolding update_client_id
  update_client_id-Keeps r i client_id v = on_fields-Keeps r i _ (λ s. (refl, refl, refl)) v

  pub update_keep_alive-Keeps :
      (r : SessionRegistry c) (i : ℕ) (secs : ℕ)
      → IsValid r
      → After (Keeps r) (update_keep_alive r i secs)
  unfolding update_keep_alive
  update_keep_alive-Keeps r i secs v = on_fields-Keeps r i _ (λ s. (refl, refl, refl)) v

  -- What marking a session does: it is found and changes its state, or the registry is as before.
  abbrev pub Marks :
      SessionRegistry c → ℕ → Step (SessionRegistry c) BrokerError (Unit {0}) → Type 0
  Marks r i (done r' _) =
      IsValid r'
      × ((s : Session c) × (find_session r i ≡ some s)
          × ((j : ℕ)
              → find_session r' j
                ≡ (if i == j then some (record s { state = disconnected }) else find_session r j)))
  Marks r i (fail r' e) = (r' ≡ r) × (find_session r i ≡ none)
  Marks r i crash = ⊥

  pub mark_disconnected_lem :
      (r : SessionRegistry c) (i : ℕ) → IsValid r → Marks r i (mark_disconnected r i)
  unfolding mark_disconnected on_session
  mark_disconnected_lem r i v = elim (Option-cases (find_session r i)) [
    | inl e ↦ rw (e, mark_disconnected, on_session) (refl, e)
    | inr (s, e) ↦
        let (w, same) = find_session_found r i v e in
        let t : Session c = record s { state = disconnected } in
        let ok_t : SessionIsValid t = record {
          rx = w.rx;
          tx = w.tx;
          rx_packets = w.rx_packets;
          tx_packets = w.tx_packets;
        } in
        let (v', found) = write_session_lem r i t v e same ok_t in
        rw (e, mark_disconnected, on_session) (v', (s, e, found))
  ]
