-- ===== src/Topics/Unsubscribe.antt =====
-- src/topics.rs: `unsubscribe`.
use picobroker.Base.{
  ℕ, ◌≡◌, refl, sym, ap, ◌∙◌, subst, Bool, true, false, not, ◌&&◌, none, some, List, arith, ◌==◌,
  length, find, position, set, get_elem?, erase_at, modify_first, position-lt, length-set,
  get_elem?-set, Bool-cases, Option-cases, inl, inr,
}
use picobroker.Base.Result.{done, then_step}
use picobroker.Config.{Config}
use picobroker.Heapless
use picobroker.Heapless.{HeaplessVec, as_slice}
use picobroker.Heapless.Laws.{write_slice_lem, remove_lem, length-as_slice, is_empty_lem}
use picobroker.Packets.{TopicName}
use picobroker.Text.{str_eq}
use picobroker.Text.Laws.{str_eq_iff}
use picobroker.Topics.{
  TopicEntry, TopicRegistry, contains, named, is_empty, remove_subscriber, unsubscribe,
  unsubscribe_at,
}
use picobroker.Topics.Subscribers.{remove_subscriber_lem}
use picobroker.Topics.Entries.{
  EntriesValid, listed, find_valid, find-modify_first, modify_first-EntriesValid,
}
use picobroker.Topics.Registry.{IsValid, subscribed}
use picobroker.Topics.Positions.{
  get_elem?-position, set-position, erase_at-EntriesValid, listed-erase_at, find-position,
}

-- The pairs without one of them.
abbrev pub Drops :
    {N : ℕ} → (TopicName N → ℕ → Bool) → TopicName N → ℕ → (TopicName N → ℕ → Bool) → Type 0
Drops {N} before f i after =
    (g : TopicName N) (j : ℕ) → after g j ≡ (before g j && not (str_eq f g && i == j))

and_true : (b : Bool) → (b && true) ≡ b
and_true true = refl
and_true false = refl

module _ {c : Config} where
  missing-Drops :
      (es : List (TopicEntry c)) (f : TopicName c.max_topic_name_length) (i : ℕ)
      → find (named f) es ≡ none
      → Drops (listed es) f i (listed es)
  missing-Drops es f i h g j = elim (Bool-cases (str_eq f g)) [
    | inl same ↦
        let gone : find (named g) es ≡ none =
          subst (λ k. find (named k) es ≡ none) ((str_eq_iff f g).0 same) h in
        rw gone refl
    | inr other ↦ rw other (sym (and_true (listed es g j)))
  ]

  written-Drops :
      (es : List (TopicEntry c)) (f : TopicName c.max_topic_name_length) (i : ℕ)
      (e e' : TopicEntry c)
      → find (named f) es ≡ some e
      → e'.topic_name ≡ e.topic_name
      → ((j : ℕ)
          → contains j (as_slice e'.subscribers)
            ≡ (contains j (as_slice e.subscribers) && not (i == j)))
      → Drops (listed es) f i (listed (modify_first (named f) (λ _. e') es))
  written-Drops es f i e e' h name has g j =
      let now = find-modify_first f g e e' es h name in
      elim (Bool-cases (str_eq f g)) [
        | inl same ↦
            let there : find (named g) es ≡ some e =
              subst (λ k. find (named k) es ≡ some e) ((str_eq_iff f g).0 same) h in
            rw (now, same, there) (has j)
        | inr other ↦ rw (now, other) (sym (and_true (listed es g j)))
      ]

  -- What `unsubscribe_at` gives, once it is known what its calls give.
  module _ (E : Type 0) (r : TopicRegistry c) (i idx : ℕ) (e e' : TopicEntry c) (b : Bool) where
    abbrev entries_after : HeaplessVec (TopicEntry c) c.max_topics
    entries_after = Heapless.write_slice r.topics (set (as_slice r.topics) idx e')

    entry_stays :
        remove_subscriber {E = E} e i ≡ done e' b
        → get_elem? (as_slice entries_after) idx ≡ some e'
        → Heapless.is_empty e'.subscribers ≡ false
        → unsubscribe_at {E = E} r i idx e ≡ done (record r { topics = entries_after }) b
    unfolding unsubscribe_at is_empty
    entry_stays m at used = rw (unsubscribe_at, m, then_step, at, used) refl

    entry_goes :
        (w : HeaplessVec (TopicEntry c) c.max_topics)
        → remove_subscriber {E = E} e i ≡ done e' b
        → get_elem? (as_slice entries_after) idx ≡ some e'
        → Heapless.is_empty e'.subscribers ≡ true
        → Heapless.remove {E = E} entries_after idx ≡ done w tt
        → unsubscribe_at {E = E} r i idx e ≡ done (record r { topics = w }) b
    unfolding unsubscribe_at is_empty
    entry_goes w m at empty removed = rw (unsubscribe_at, m, then_step, at, empty, removed) refl

  pub unsubscribe_lem :
      (E : Type 0) (r : TopicRegistry c) (i : ℕ) (f : TopicName c.max_topic_name_length)
      → IsValid r
      → (r' : TopicRegistry c) × (unsubscribe {E = E} r i f ≡ done r' (subscribed r f i))
        × IsValid r'
        × Drops (subscribed r) f i (subscribed r')
  unfolding unsubscribe unsubscribe_at is_empty
  unsubscribe_lem E r i f v =
      let es = as_slice r.topics in
      elim (Option-cases (position (named f) es)) [
        | inl gone ↦
            let h = find-position (named f) es gone in
            (r, rw (unsubscribe, gone, h) refl, v, missing-Drops es f i h)
        | inr (idx, there) ↦
            let (e, at, h) = get_elem?-position (named f) es idx there in
            let (ok_e, named_f) = find_valid f e es v.entries h in
            let (e', m, ok_e', name, has) = remove_subscriber_lem {E = E} e i ok_e in
            let lt = position-lt (named f) es idx there in
            let es' = set es idx e' in
            let (ok_v, now) =
              write_slice_lem r.topics es' v.vec
                (length-set es idx e' ∙ length-as_slice r.topics v.vec) in
            let at' = ap (λ k. get_elem? k idx) now ∙ get_elem?-set es idx e' lt in
            let same = set-position (named f) e' es idx there in
            let valid' : EntriesValid es' =
              subst (λ k. EntriesValid k) (sym same)
                (modify_first-EntriesValid f e' es (name ∙ named_f) ok_e' v.entries) in
            let pairs : Drops (listed es) f i (listed es') =
              subst (λ k. Drops (listed es) f i (listed k)) (sym same)
                (written-Drops es f i e e' h name has) in
            elim (Bool-cases (Heapless.is_empty e'.subscribers)) [
              | inl empty ↦
                  let none_left = is_empty_lem e'.subscribers empty in
                  let (w, m', ok_w, left) =
                    remove_lem {E = E} (Heapless.write_slice r.topics es') idx ok_v (
                      omega (
                        arith,
                        ap length now,
                        length-set es idx e',
                        length-as_slice (Heapless.write_slice r.topics es') ok_v,
                      )) in
                  let left' = left ∙ ap (erase_at idx) now in
                  (
                    record r { topics = w },
                    rw (unsubscribe, there, at, h)
                        (entry_goes E r i idx e e' (contains i (as_slice e.subscribers)) w m at'
                          empty m'),
                    record {
                      vec = ok_w;
                      entries = rw left' (erase_at-EntriesValid idx es' valid');
                      small = v.small;
                    },
                    λ g j. rw left' (
                        listed-erase_at idx es' e' g j valid' (get_elem?-set es idx e' lt) none_left
                        ∙ pairs g j),
                  )
              | inr used ↦ (
                record r { topics = Heapless.write_slice r.topics es' },
                rw (unsubscribe, there, at, h)
                    (entry_stays E r i idx e e' (contains i (as_slice e.subscribers)) m at' used),
                record { vec = ok_v; entries = rw now valid'; small = v.small },
                λ g j. rw now (pairs g j),
              )
            ]
      ]
