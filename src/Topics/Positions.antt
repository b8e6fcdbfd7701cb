-- ===== src/Topics/Positions.antt =====
-- The entry of a filter by its index: finding, writing and erasing it.
use picobroker.Base.{
  ℕ, zero, suc, ◌≡◌, refl, sym, ap, ◌∙◌, subst, Bool, false, none, some, List, [], ◌∷◌, arith, any,
  find, position, set, get_elem?, erase_at, modify_first, Bool-cases, Option-cases, inl, inr,
}
use mathlib.Core.Option.{some-injective}
use picobroker.Config.{Config}
use picobroker.Heapless.{as_slice}
use picobroker.Packets.{TopicName}
use picobroker.Text.Laws.{str_eq_iff}
use picobroker.Topics.{TopicEntry, contains, named}
use picobroker.Topics.Entries.{EntriesValid, listed}
use picobroker.Topics.Unregister.{absent-listed}

module _ {A : Type 0} where
  pub get_elem?-position :
      (f : A → Bool) (xs : List A) (i : ℕ)
      → position f xs ≡ some i
      → (x : A) × (get_elem? xs i ≡ some x) × (find f xs ≡ some x)
  get_elem?-position f [] i h = cc
  get_elem?-position f (x ∷ xs) i h = elim (Bool-cases (f x)) [
    | inl here ↦
        let z : some 0 ≡ some i = rw here at h in
        (x, subst (λ k. get_elem? (x ∷ xs) k ≡ some x) (some-injective 0 i z) refl, rw here refl)
    | inr later ↦ elim (Option-cases (position f xs)) [
      | inl gone ↦ cc (rw (later, gone) at h)
      | inr (j, there) ↦
          let s : some (suc j) ≡ some i = rw (later, there) at h in
          let (y, a, b) = get_elem?-position f xs j there in
          (y, subst (λ k. get_elem? (x ∷ xs) k ≡ some y) (some-injective (suc j) i s) a, rw later b)
    ]
  ]

  pub set-position :
      (f : A → Bool) (y : A) (xs : List A) (i : ℕ)
      → position f xs ≡ some i
      → set xs i y ≡ modify_first f (λ _. y) xs
  set-position f y [] i h = cc
  set-position f y (x ∷ xs) i h = elim (Bool-cases (f x)) [
    | inl here ↦
        let z : some 0 ≡ some i = rw here at h in
        subst (λ k. set (x ∷ xs) k y ≡ modify_first f (λ _. y) (x ∷ xs)) (some-injective 0 i z)
          (rw here refl)
    | inr later ↦ elim (Option-cases (position f xs)) [
      | inl gone ↦ cc (rw (later, gone) at h)
      | inr (j, there) ↦
          let s : some (suc j) ≡ some i = rw (later, there) at h in
          subst (λ k. set (x ∷ xs) k y ≡ modify_first f (λ _. y) (x ∷ xs))
            (some-injective (suc j) i s) (rw later (ap (◌∷◌ x) (set-position f y xs j there)))
    ]
  ]

module _ {c : Config} where
  any-erase_at :
      (g : TopicName c.max_topic_name_length) (i : ℕ) (es : List (TopicEntry c))
      → any (named g) es ≡ false
      → any (named g) (erase_at i es) ≡ false
  any-erase_at g i [] h = refl
  any-erase_at g zero (e ∷ es) h = ground arith
  any-erase_at g (suc i) (e ∷ es) h = ground (arith, any-erase_at g i es)

  pub erase_at-EntriesValid :
      (i : ℕ) (es : List (TopicEntry c)) → EntriesValid es → EntriesValid (erase_at i es)
  erase_at-EntriesValid i [] v = tt
  erase_at-EntriesValid zero (e ∷ es) (_, _, v) = v
  erase_at-EntriesValid (suc i) (e ∷ es) (ok_e, fresh, v) =
      (ok_e, any-erase_at e.topic_name i es fresh, erase_at-EntriesValid i es v)

  -- An entry without subscribers is not missed.
  pub listed-erase_at :
      (i : ℕ) (es : List (TopicEntry c)) (e : TopicEntry c) (g : TopicName c.max_topic_name_length)
      (j : ℕ)
      → EntriesValid es
      → get_elem? es i ≡ some e
      → as_slice e.subscribers ≡ []
      → listed (erase_at i es) g j ≡ listed es g j
  listed-erase_at i [] e g j v h empty = refl
  listed-erase_at zero (x ∷ es) e g j (_, fresh, v) h empty = elim (Bool-cases (named g x)) [
    | inl here ↦
        let fresh_g : any (named g) es ≡ false =
          subst (λ t. any (named t) es ≡ false) ((str_eq_iff x.topic_name g).0 here) fresh in
        let none_left = ap (λ k. as_slice k.subscribers) (some-injective x e h) ∙ empty in
        rw here (absent-listed g j es fresh_g ∙ sym (ap (contains j) none_left))
    | inr elsewhere ↦ rw elsewhere refl
  ]
  listed-erase_at (suc i) (x ∷ es) e g j (_, fresh, v) h empty = elim (Bool-cases (named g x)) [
    | inl here ↦ rw here refl
    | inr elsewhere ↦ rw elsewhere (listed-erase_at i es e g j v h empty)
  ]

  pub find-position :
      (f : TopicEntry c → Bool) (es : List (TopicEntry c)) → position f es ≡ none → find f es ≡ none
  find-position f [] h = refl
  find-position f (e ∷ es) h = elim (Bool-cases (f e)) [
    | inl here ↦ cc (rw here at h)
    | inr later ↦ elim (Option-cases (position f es)) [
      | inl gone ↦ rw later (find-position f es gone)
      | inr (j, there) ↦ cc (rw (later, there) at h)
    ]
  ]
