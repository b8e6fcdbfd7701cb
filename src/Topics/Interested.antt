-- ===== src/Topics/Interested.antt =====
-- The sessions that a topic is delivered to, by the filters they are subscribed under.
use picobroker.Base.{
  ℕ, ◌≡◌, refl, sym, subst, Bool, true, false, ◌||◌, List, [], ◌∷◌, any, Bool-cases, inl, inr,
}
use picobroker.Config.{Config}
use picobroker.Heapless.{as_slice}
use picobroker.Packets.{TopicName}
use picobroker.Text.{as_str}
use picobroker.Text.Laws.{str_eq_iff}
use picobroker.Topics.{TopicEntry, contains, named}
use picobroker.Topics.Entries.{EntriesValid, listed, named_self}
use picobroker.Topics.Levels.Matching.{matches}
use picobroker.Topics.Unregister.{absent-listed}
use picobroker.Topics.Delivery.{interested}

or_true : (b : Bool) → (b || true) ≡ true
or_true true = refl
or_true false = refl

module _ {c : Config} where
  -- The sessions that a topic is delivered to are those with a pair whose filter it matches.
  pub interested-listed :
      (published : List ℕ) (es : List (TopicEntry c)) (j : ℕ)
      → EntriesValid es
      → interested published es j ≡ true
      → (f : TopicName c.max_topic_name_length) × (listed es f j ≡ true)
        × (matches published (as_str f) ≡ true)
  interested-listed published [] j v h = cc
  interested-listed published (e ∷ es) j (_, fresh, v) h =
      elim (Bool-cases (matches published (as_str e.topic_name))) [
        | inl it_matches ↦ elim (Bool-cases (contains j (as_slice e.subscribers))) [
          | inl there ↦ (e.topic_name, rw (named_self e) there, it_matches)
          | inr not_there ↦
              later (interested-listed published es j v (rw (it_matches, not_there) at h))
        ]
        | inr differs ↦ later (interested-listed published es j v (rw differs at h))
      ]
    where
      later :
          ((f : TopicName c.max_topic_name_length) × (listed es f j ≡ true)
            × (matches published (as_str f) ≡ true))
          → (f : TopicName c.max_topic_name_length) × (listed (e ∷ es) f j ≡ true)
            × (matches published (as_str f) ≡ true)
      later (f, there, it_matches) = elim (Bool-cases (named f e)) [
        | inl same ↦
            let fresh_f : any (named f) es ≡ false =
              subst (λ t. any (named t) es ≡ false) ((str_eq_iff e.topic_name f).0 same) fresh in
            cc (absent-listed f j es fresh_f, there)
        | inr other ↦ (f, rw other there, it_matches)
      ]

  pub listed-interested :
      (published : List ℕ) (es : List (TopicEntry c)) (f : TopicName c.max_topic_name_length)
      (j : ℕ)
      → listed es f j ≡ true
      → matches published (as_str f) ≡ true
      → interested published es j ≡ true
  listed-interested published [] f j h m = cc
  listed-interested published (e ∷ es) f j h m = elim (Bool-cases (named f e)) [
    | inl same ↦
        let it_matches : matches published (as_str e.topic_name) ≡ true =
          subst (λ k. matches published (as_str k) ≡ true)
            (sym ((str_eq_iff e.topic_name f).0 same)) m in
        rw (it_matches, rw same at h) refl
    | inr other ↦ rw (listed-interested published es f j (rw other at h) m) (or_true _)
  ]
