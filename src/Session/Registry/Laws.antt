-- ===== src/Session/Registry/Laws.antt =====
-- The session registry through `find_session`: what each operation changes, and what it keeps.
use picobroker.Base.{
  ℕ, ◌≡◌, refl, sym, ap, ◌∙◌, subst, false, Option, none, some, ◌==◌, ==→eq, if◌then◌else◌,
  Bool-cases, Option-cases, inl, inr,
}
use picobroker.Base.Result.{Step, done, fail, crash, After, map_step}
use picobroker.Config.{Config}
use picobroker.Error.{BrokerError}
use picobroker.Heapless
use picobroker.Heapless.{as_slice}
use picobroker.Heapless.Laws.{modify_lem}
use picobroker.Session.{Session, Queue}
use picobroker.Session.Registry.{SessionRegistry, has_id, find_session, write_session, on_session}
use picobroker.Session.Registry.Slots.{
  SessionIsValid, SlotsValid, replace-SlotsValid, lookup-replace, lookup_found,
}

pub record IsValid {c : Config} (r : SessionRegistry c) : Type 0 where
  pub vec : Heapless.IsValid r.sessions
  pub slots : SlotsValid (as_slice r.sessions)

module _ {c : Config} where
  pub find_session_found :
      (r : SessionRegistry c) (i : ℕ) {s : Session c}
      → IsValid r
      → find_session r i ≡ some s
      → SessionIsValid s × (s.session_id ≡ i)
  unfolding find_session
  find_session_found r i {s} v e = lookup_found i s (as_slice r.sessions) v.slots e

  -- Writing a found session back changes that session, and no other.
  pub write_session_lem :
      (r : SessionRegistry c) (i : ℕ) {old : Session c} (s : Session c)
      → IsValid r
      → find_session r i ≡ some old
      → s.session_id ≡ i
      → SessionIsValid s
      → IsValid (write_session r i s)
        × ((j : ℕ)
            → find_session (write_session r i s) j ≡ (if i == j then some s else find_session r j))
  unfolding find_session write_session
  write_session_lem r i {old} s v e p w =
      let (ok_vec, now) = modify_lem (has_id i) (λ _. some s) r.sessions v.vec in
      (
        record {
          vec = ok_vec;
          slots = rw now (replace-SlotsValid i s (as_slice r.sessions) p w v.slots);
        },
        λ j. rw now (lookup-replace i j s old (as_slice r.sessions) p e),
      )

  -- The receive queue of a session.
  pub rx_of : SessionRegistry c → ℕ → Option (Queue c)
  rx_of r i = elim (find_session r i) [ none ↦ none | some s ↦ some s.rx_queue ]

  pub rx_of_found :
      (r : SessionRegistry c) (i : ℕ) {s : Session c}
      → find_session r i ≡ some s
      → rx_of r i ≡ some s.rx_queue
  unfolding rx_of
  rx_of_found r i e = rw (e, rx_of)

  pub rx_of_missing : (r : SessionRegistry c) (i : ℕ) → find_session r i ≡ none → rx_of r i ≡ none
  unfolding rx_of
  rx_of_missing r i e = rw (e, rx_of)

  pub rx_of_write :
      (r : SessionRegistry c) (i j : ℕ) (old s : Session c) (r' : SessionRegistry c)
      → find_session r i ≡ some old
      → s.rx_queue ≡ old.rx_queue
      → find_session r' j ≡ (if i == j then some s else find_session r j)
      → rx_of r' j ≡ rx_of r j
  rx_of_write r i j old s r' e q f = elim (Bool-cases (i == j)) [
    | inl hit ↦
        let same : find_session r' j ≡ some s = rw hit at f in
        let here : find_session r j ≡ some old =
          subst (λ k. find_session r k ≡ some old) (==→eq i j hit) e in
        rx_of_found r' j same ∙ ap some q ∙ sym (rx_of_found r j here)
    | inr miss ↦
        let same : find_session r' j ≡ find_session r j = rw miss at f in
        unfold rx_of in rw (same, rx_of)
  ]

  pub rx_of_other :
      (r r' : SessionRegistry c) (i j : ℕ) (t : Session c)
      → find_session r' j ≡ (if i == j then some t else find_session r j)
      → (i == j) ≡ false
      → rx_of r' j ≡ rx_of r j
  rx_of_other r r' i j t f miss =
      let same : find_session r' j ≡ find_session r j = rw miss at f in
      unfold rx_of in rw (same, rx_of)

  -- The registry stays valid, and no session comes, goes, or has its receive queue changed.
  pub record Keeps (r r' : SessionRegistry c) : Type 0 where
    pub valid : IsValid r'
    pub rx : (j : ℕ) → rx_of r' j ≡ rx_of r j

  pub Keeps-self : (r : SessionRegistry c) → IsValid r → Keeps r r
  Keeps-self r v = record { valid = v; rx = λ j. refl }

  pub Keeps-trans : {r s t : SessionRegistry c} → Keeps r s → Keeps s t → Keeps r t
  Keeps-trans h k = record { valid = k.valid; rx = λ j. k.rx j ∙ h.rx j }

  -- A method that keeps a session's id and receive queue keeps the registry so.
  pub on_session-Keeps :
      {A : Type 0} (r : SessionRegistry c) (i : ℕ)
      (method : Session c → Step (Session c) BrokerError A)
      → IsValid r
      → ((s : Session c)
          → SessionIsValid s
          → After
              (λ t. SessionIsValid t × (t.session_id ≡ s.session_id) × (t.rx_queue ≡ s.rx_queue))
              (method s))
      → After (Keeps r) (on_session r i method)
  unfolding on_session
  on_session-Keeps {A} r i method v k = elim (Option-cases (find_session r i)) [
    | inl e ↦ rw (e, on_session) (Keeps-self r v)
    | inr (s, e) ↦
        let (w, same) = find_session_found r i v e in
        rw (e, on_session) (kept s (method s) e same (k s w))
  ]
    where
      written :
          (s t : Session c)
          → find_session r i ≡ some s
          → s.session_id ≡ i
          → SessionIsValid t × (t.session_id ≡ s.session_id) × (t.rx_queue ≡ s.rx_queue)
          → Keeps r (write_session r i t)
      written s t e same (w, p, q) =
          let (valid', found) = write_session_lem r i t v e (p ∙ same) w in
          record {
            valid = valid';
            rx = λ j. rx_of_write r i j s t (write_session r i t) e q (found j);
          }

      kept :
          (s : Session c) (m : Step (Session c) BrokerError A)
          → find_session r i ≡ some s
          → s.session_id ≡ i
          → After
              (λ t. SessionIsValid t × (t.session_id ≡ s.session_id) × (t.rx_queue ≡ s.rx_queue))
              m
          → After (Keeps r) (map_step (write_session r i) (λ e. e) m)
      kept s (done t a) e same h = written s t e same h
      kept s (fail t x) e same h = written s t e same h
      kept s crash e same h = h
