-- ===== src/Rp2040/State/Notifying.antt =====
-- A session that is registered at a channel is woken there.
use picobroker.Base.{
  ℕ, zero, suc, ◌<◌, ◌≡◌, refl, sym, ◌∙◌, true, false, Option, none, some, List, [], ◌∷◌, arith,
  ltb, lt→ltb, ◌==◌, ==_self, length, any, set, get_elem?, position, Bool-cases, inl, inr, subst,
  length-set, get_elem?-set, get_elem?-set_other, get_elem?-lt,
}
use mathlib.Core.Option.{some-injective}
use picobroker.Rp2040.State.{Channel, NotificationRegistry, register_session, notify_session}

-- What the documentation of the channel says: after `try_send` there is a signal.
pub record ChannelLaws (C : Channel) : Type 0 where
  pub has_signal-try_send : (s : C.Signals) → C.has_signal (C.try_send s) ≡ true

-- The slots are those of two arrays.
pub record IsValid {C : Channel} {n : ℕ} (r : NotificationRegistry C n) : Type 0 where
  pub channels : length r.channels ≡ n
  pub ids : length r.session_ids ≡ n

position-set :
    (ids : List ℕ) (idx id : ℕ)
    → idx < length ids
    → any (λ k. k == id) ids ≡ false
    → position (λ k. k == id) (set ids idx id) ≡ some idx
position-set [] idx id h new = absurd (omega arith)
position-set (x ∷ ids) zero id h new = rw (==_self id) refl
position-set (x ∷ ids) (suc idx) id h new = elim (Bool-cases (x == id)) [
  | inl hit ↦ cc (rw hit at new)
  | inr miss ↦ rw (miss, position-set ids idx id (omega arith) (rw miss at new)) refl
]

module _ {C : Channel} (laws : ChannelLaws C) {n : ℕ} where
  -- The channel of a slot has a signal, and the other channels are as they were.
  abbrev pub Wakes : NotificationRegistry C n → ℕ → Option (NotificationRegistry C n) → Type 0
  Wakes r idx none = ⊥
  Wakes r idx (some r') =
      ((s : C.Signals) → get_elem? r'.channels idx ≡ some s → C.has_signal s ≡ true)
      × (length r'.channels ≡ n)
      × ((j : ℕ) → (idx == j) ≡ false → get_elem? r'.channels j ≡ get_elem? r.channels j)

  -- With a channel that does what it documents and arrays of the right length: where a session
  -- is registered at a slot and no slot has its id before, notifying it leaves a signal in the
  -- channel of that slot and the other channels as they were.
  pub notify-register_session :
      (r : NotificationRegistry C n) (idx id : ℕ)
      → IsValid r
      → idx < n
      → any (λ k. k == id) r.session_ids ≡ false
      → Wakes r idx (notify_session (register_session r idx id) id)
  unfolding notify_session register_session
  notify-register_session r idx id v h new =
      let inside : ltb idx n ≡ true = lt→ltb idx n h in
      let at = position-set r.session_ids idx id (omega (arith, v.ids)) new in
      let room : idx < length r.channels = omega (arith, v.channels) in
      let (s, there) = get_elem?-lt r.channels idx room in
      let r1 : NotificationRegistry C n = record r { session_ids = set r.session_ids idx id } in
      let registers : register_session r idx id ≡ r1 = rw (register_session, inside) refl in
      subst (λ k. Wakes r idx (notify_session k id)) (sym registers)
        (rw (notify_session, at, there)
          (
            λ t e.
                subst (λ k. C.has_signal k ≡ true)
                  (some-injective (C.try_send s) t
                    (sym (get_elem?-set r.channels idx (C.try_send s) room) ∙ e))
                  (laws.has_signal-try_send s),
            length-set r.channels idx (C.try_send s) ∙ v.channels,
            λ j off. get_elem?-set_other r.channels idx j (C.try_send s) off,
          ))
