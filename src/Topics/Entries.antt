-- ===== src/Topics/Entries.antt =====
-- src/topics.rs: the entries of the registry as a list, by the name of their filter.
use picobroker.Base.{
  ℕ, ◌≡◌, refl, sym, ap, ◌∙◌, subst, Bool, true, false, Option, none, some, List, [], ◌∷◌, ◌++◌,
  arith, if◌then◌else◌, any, find, modify_first, Bool-cases, inl, inr,
}
use mathlib.Core.Option.{some-injective}
use picobroker.Config.{Config}
use picobroker.Heapless.{as_slice}
use picobroker.Packets.{TopicName}
use picobroker.Text.{str_eq}
use picobroker.Text.Laws.{str_eq_iff}
use picobroker.Topics.{TopicEntry, contains, named}
use picobroker.Topics.Subscribers.{EntryIsValid}

module _ {c : Config} where
  -- The entries are in order, and no two have one name.
  abbrev pub EntriesValid : List (TopicEntry c) → Type 0
  EntriesValid [] = Unit {0}
  EntriesValid (e ∷ es) = EntryIsValid e × (any (named e.topic_name) es ≡ false) × EntriesValid es

  -- Whether a session is among the subscribers of the entry with a name.
  abbrev pub member : ℕ → Option (TopicEntry c) → Bool
  member j none = false
  member j (some e) = contains j (as_slice e.subscribers)

  abbrev pub listed : List (TopicEntry c) → TopicName c.max_topic_name_length → ℕ → Bool
  listed es g j = member j (find (named g) es)

  named_eq :
      (e : TopicEntry c) (f : TopicName c.max_topic_name_length)
      → named f e ≡ true
      → e.topic_name ≡ f
  named_eq e f h = (str_eq_iff e.topic_name f).0 h

  pub named_self : (e : TopicEntry c) → named e.topic_name e ≡ true
  named_self e = (str_eq_iff e.topic_name e.topic_name).1 refl

  other_name :
      (x : TopicEntry c) (f g : TopicName c.max_topic_name_length)
      → named f x ≡ false
      → named g x ≡ true
      → str_eq f g ≡ false
  other_name x f g miss here = elim (Bool-cases (str_eq f g)) [
    | inr n ↦ n
    | inl y ↦ cc ((str_eq_iff f g).0 y)
  ]

  pub find-modify_first :
      (f g : TopicName c.max_topic_name_length) (e e' : TopicEntry c) (es : List (TopicEntry c))
      → find (named f) es ≡ some e
      → e'.topic_name ≡ e.topic_name
      → find (named g) (modify_first (named f) (λ _. e') es)
        ≡ (if str_eq f g then some e' else find (named g) es)
  find-modify_first f g e e' [] h p = cc
  find-modify_first f g e e' (x ∷ es) h p = elim (Bool-cases (named f x)) [
    | inl hit ↦
        let found : some x ≡ some e = rw hit at h in
        let name : x.topic_name ≡ f = named_eq x f hit in
        let old : named g x ≡ str_eq f g = ap (λ t. str_eq t g) name in
        let now : named g e' ≡ str_eq f g =
          ap (λ t. str_eq t g)
            (p ∙ ap (λ u. u.topic_name) (sym (some-injective x e found)) ∙ name) in
        rw (hit, now, old)
          (elim (Bool-cases (str_eq f g)) [ inl y ↦ rw y refl | inr n ↦ rw n refl ])
    | inr miss ↦
        let later : find (named f) es ≡ some e = rw miss at h in
        rw (miss, find-modify_first f g e e' es later p)
          (elim (Bool-cases (named g x)) [
            | inl here ↦ rw (here, other_name x f g miss here) refl
            | inr not_here ↦ rw not_here refl
          ])
  ]

  any-modify_first :
      (f g : TopicName c.max_topic_name_length) (e' : TopicEntry c) (es : List (TopicEntry c))
      → e'.topic_name ≡ f
      → any (named g) (modify_first (named f) (λ _. e') es) ≡ any (named g) es
  any-modify_first f g e' [] p = refl
  any-modify_first f g e' (x ∷ es) p = elim (Bool-cases (named f x)) [
    | inl hit ↦
        let same : named g e' ≡ named g x = ap (λ t. str_eq t g) (p ∙ sym (named_eq x f hit)) in
        rw (hit, same) refl
    | inr miss ↦ rw (miss, any-modify_first f g e' es p) refl
  ]

  pub modify_first-EntriesValid :
      (f : TopicName c.max_topic_name_length) (e' : TopicEntry c) (es : List (TopicEntry c))
      → e'.topic_name ≡ f
      → EntryIsValid e'
      → EntriesValid es
      → EntriesValid (modify_first (named f) (λ _. e') es)
  modify_first-EntriesValid f e' [] p v h = tt
  modify_first-EntriesValid f e' (x ∷ es) p v (a, b, d) = elim (Bool-cases (named f x)) [
    | inl hit ↦ rw hit (v, subst (λ t. any (named t) es ≡ false) (named_eq x f hit ∙ sym p) b, d)
    | inr miss ↦
        rw (miss, any-modify_first f x.topic_name e' es p)
          (a, b, modify_first-EntriesValid f e' es p v d)
  ]

  pub find_valid :
      (f : TopicName c.max_topic_name_length) (e : TopicEntry c) (es : List (TopicEntry c))
      → EntriesValid es
      → find (named f) es ≡ some e
      → EntryIsValid e × (e.topic_name ≡ f)
  find_valid f e [] v h = cc
  find_valid f e (x ∷ es) (a, b, d) h = elim (Bool-cases (named f x)) [
    | inl hit ↦
        let same : x ≡ e = some-injective x e (rw hit at h) in
        subst (λ u. EntryIsValid u × (u.topic_name ≡ f)) same (a, named_eq x f hit)
    | inr miss ↦ find_valid f e es d (rw miss at h)
  ]

  absurd_found {ℓ} : {B : Type ℓ} (x : TopicEntry c) → some x ≡ none → B
  absurd_found x h = cc

  -- An entry added at the end under a name that no entry has.
  pub find-append :
      (g : TopicName c.max_topic_name_length) (e : TopicEntry c) (es : List (TopicEntry c))
      → find (named e.topic_name) es ≡ none
      → find (named g) (es ++ e ∷ [])
        ≡ (if str_eq e.topic_name g then some e else find (named g) es)
  find-append g e [] h = refl
  find-append g e (x ∷ es) h = elim (Bool-cases (named e.topic_name x)) [
    | inl hit ↦ absurd_found x (rw hit at h)
    | inr miss ↦
        let later : find (named e.topic_name) es ≡ none = rw miss at h in
        elim (Bool-cases (named g x)) [
          | inl here ↦ rw (here, other_name x e.topic_name g miss here) refl
          | inr not_here ↦ rw not_here (find-append g e es later)
        ]
  ]

  find-any :
      (f : TopicName c.max_topic_name_length) (es : List (TopicEntry c))
      → find (named f) es ≡ none
      → any (named f) es ≡ false
  find-any f [] h = refl
  find-any f (x ∷ es) h = ground (arith, find-any f es)

  any-append :
      (x e : TopicEntry c) (es : List (TopicEntry c))
      → named e.topic_name x ≡ false
      → any (named x.topic_name) es ≡ false
      → any (named x.topic_name) (es ++ e ∷ []) ≡ false
  any-append x e [] miss b = elim (Bool-cases (named x.topic_name e)) [
    | inl y ↦
        let same : named e.topic_name x ≡ true =
          (str_eq_iff x.topic_name e.topic_name).1
            (sym ((str_eq_iff e.topic_name x.topic_name).0 y)) in
        cc
    | inr n ↦ rw n refl
  ]
  any-append x e (y ∷ es) miss b = ground (arith, any-append x e es miss)

  pub append-EntriesValid :
      (e : TopicEntry c) (es : List (TopicEntry c))
      → find (named e.topic_name) es ≡ none
      → EntryIsValid e
      → EntriesValid es
      → EntriesValid (es ++ e ∷ [])
  append-EntriesValid e [] h v w = (v, refl, tt)
  append-EntriesValid e (x ∷ es) h v (a, b, d) = elim (Bool-cases (named e.topic_name x)) [
    | inl hit ↦ absurd_found x (rw hit at h)
    | inr miss ↦
        let later : find (named e.topic_name) es ≡ none = rw miss at h in
        (a, any-append x e es miss b, append-EntriesValid e es later v d)
  ]
