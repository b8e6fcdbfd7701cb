-- ===== src/Topics/Registry.antt =====
-- src/topics.rs: `TopicRegistry` through the set of its pairs of a filter and a subscriber.
use picobroker.Base.{false}
use picobroker.Base.{
  or_false, ℕ, ◌<◌, ◌≡◌, refl, sym, ap, ◌∙◌, subst, Bool, true, ◌&&◌, ◌||◌, none, some, List, leb,
  ◌==◌, find, Bool-cases, Option-cases, inl, inr,
}
use picobroker.Base.Result.{Step, done, fail, crash, map_step}
use picobroker.Config.{Config}
use picobroker.Error.{BrokerError}
use picobroker.Heapless
use picobroker.Heapless.{as_slice}
use picobroker.Heapless.Laws.{modify_lem, push-Pushes, new_lem}
use picobroker.Packets.{TopicName}
use picobroker.Text.{str_eq}
use picobroker.Text.Laws.{str_eq_iff}
use picobroker.Topics.{
  TopicEntry, TopicRegistry, contains, named, add_subscriber, add_topic, new_entry, default_entry,
  default_registry, subscribe,
}
use picobroker.Topics.Subscribers.{EntryIsValid, Adds, add_subscriber_lem}
use picobroker.Topics.Entries.{
  EntriesValid, member, listed, find-modify_first, modify_first-EntriesValid, find_valid,
  find-append, append-EntriesValid,
}

pub record IsValid {c : Config} (r : TopicRegistry c) : Type 0 where
  pub vec : Heapless.IsValid r.topics
  pub entries : EntriesValid (as_slice r.topics)
  pub small : c.max_subscribers_per_topic < Heapless.u16_mod

module _ {c : Config} where
  -- Whether a session is subscribed under a filter, spelled as it was when it subscribed.
  abbrev pub subscribed : TopicRegistry c → TopicName c.max_topic_name_length → ℕ → Bool
  subscribed r g j = listed (as_slice r.topics) g j

  -- What subscribing does: one pair more and no other change, or an error and no change.
  abbrev pub Subscribes :
      TopicRegistry c
      → ℕ
      → TopicName c.max_topic_name_length
      → Step (TopicRegistry c) BrokerError (Unit {0})
      → Type 0
  Subscribes r i f (done r' _) =
      IsValid r'
      × ((g : TopicName c.max_topic_name_length) (j : ℕ)
          → subscribed r' g j ≡ (subscribed r g j || (str_eq f g && i == j)))
  Subscribes r i f (fail r' e) =
      IsValid r'
      × ((g : TopicName c.max_topic_name_length) (j : ℕ) → subscribed r' g j ≡ subscribed r g j)
  Subscribes r i f crash = ⊥

  found_at :
      (f g : TopicName c.max_topic_name_length) (e : TopicEntry c) (es : List (TopicEntry c))
      → find (named f) es ≡ some e
      → str_eq f g ≡ true
      → find (named g) es ≡ some e
  found_at f g e es h y = subst (λ k. find (named k) es ≡ some e) ((str_eq_iff f g).0 y) h

  write_entry :
      (r : TopicRegistry c) (i : ℕ) (f : TopicName c.max_topic_name_length) (e : TopicEntry c)
      (m : Step (TopicEntry c) BrokerError (Unit {0}))
      → IsValid r
      → find (named f) (as_slice r.topics) ≡ some e
      → Adds e i m
      → Subscribes r i f (
          map_step
            (λ e'. record r { topics = Heapless.modify (named f) (λ _. e') r.topics })
            (λ x. x)
            m)
  write_entry r i f e (done e' u) v h (ok_e, name, has) =
      let (ok_v, now) = modify_lem (named f) (λ _. e') r.topics v.vec in
      let named_f = name ∙ (find_valid f e (as_slice r.topics) v.entries h).1 in
      (
        record {
          vec = ok_v;
          entries =
              rw now (modify_first-EntriesValid f e' (as_slice r.topics) named_f ok_e v.entries);
          small = v.small;
        },
        λ g j.
            rw (now, find-modify_first f g e e' (as_slice r.topics) h name)
              (elim (Bool-cases (str_eq f g)) [
                | inl y ↦ rw (y, found_at f g e (as_slice r.topics) h y) (has j)
                | inr n ↦ rw n (or_false _)
              ]),
      )
  write_entry r i f e (fail e' x) v h (same, _, _, _) =
      let (ok_v, now) = modify_lem (named f) (λ _. e') r.topics v.vec in
      let (ok_e, name) = find_valid f e (as_slice r.topics) v.entries h in
      let ok_e' : EntryIsValid e' = subst (λ k. EntryIsValid k) (sym same) ok_e in
      let same_name : e'.topic_name ≡ e.topic_name = ap (λ k. k.topic_name) same in
      (
        record {
          vec = ok_v;
          entries = rw now (
              modify_first-EntriesValid f e' (as_slice r.topics) (same_name ∙ name) ok_e'
                v.entries);
          small = v.small;
        },
        λ g j.
            rw (now, find-modify_first f g e e' (as_slice r.topics) h same_name)
              (elim (Bool-cases (str_eq f g)) [
                | inl y ↦
                    rw (y, found_at f g e (as_slice r.topics) h y)
                      (ap (λ k. member j (some k)) same)
                | inr n ↦ rw n refl
              ]),
      )
  write_entry r i f e crash v h bad = bad

  add_topic_lem :
      (r : TopicRegistry c) (i : ℕ) (f : TopicName c.max_topic_name_length)
      → IsValid r
      → find (named f) (as_slice r.topics) ≡ none
      → Subscribes r i f (add_topic r i f)
  unfolding add_topic new_entry
  add_topic_lem r i f v h = elim (Bool-cases (leb c.max_topics (Heapless.len r.topics))) [
    | inl no_room ↦ rw no_room (v, λ g j. refl)
    | inr room ↦ rw room (
        added (add_subscriber (new_entry f) i) (
          add_subscriber_lem (new_entry f) i (record {
            vec = (new_lem {T = ℕ} 0 v.small).0;
            distinct = rw (new_lem {T = ℕ} 0 v.small).1 tt;
          })))
  ]
    where
      added :
          (m : Step (TopicEntry c) BrokerError (Unit {0}))
          → Adds (new_entry f) i m
          → Subscribes r i f (elim m [
            | done entry _ ↦
                map_step
                  (λ t. record r { topics = t })
                  (λ _. BrokerError.buffer_full)
                  (Heapless.push r.topics entry)
            | fail _ e ↦ fail r e
            | crash ↦ crash
          ])
      added (done e u) (ok_e, name, has) = elim (push-Pushes r.topics e v.vec) [
        | inl (w, m, ok_w, lt, app) ↦
            let missing : find (named e.topic_name) (as_slice r.topics) ≡ none =
              subst (λ k. find (named k) (as_slice r.topics) ≡ none) (sym name) h in
            rw m (
              record {
                vec = ok_w;
                entries = rw app (append-EntriesValid e (as_slice r.topics) missing ok_e v.entries);
                small = v.small;
              },
              λ g j.
                  rw (app, find-append g e (as_slice r.topics) missing, name)
                    (elim (Bool-cases (str_eq f g)) [
                      | inl y ↦
                          let none_there =
                            subst (λ k. find (named k) (as_slice r.topics) ≡ none)
                              ((str_eq_iff f g).0 y) h in
                          rw (y, none_there)
                            (has j
                              ∙ ap (λ k. contains j k || (i == j)) (new_lem {T = ℕ} 0 v.small).1)
                      | inr n ↦ rw n (or_false _)
                    ]),
            )
        | inr (m, full) ↦ rw m (v, λ g j. refl)
      ]
      added (fail e x) h = (v, λ g j. refl)
      added crash bad = bad

  -- On a valid topic registry, subscribe does not panic and leaves the registry valid. Where it
  -- returns Ok, exactly the pair of the filter and the session is subscribed beside the pairs of
  -- before; where it returns an error, the subscribed pairs are those of before.
  pub subscribe-Subscribes :
      (r : TopicRegistry c) (i : ℕ) (f : TopicName c.max_topic_name_length)
      → IsValid r
      → Subscribes r i f (subscribe r i f)
  unfolding subscribe
  subscribe-Subscribes r i f v = elim (Option-cases (find (named f) (as_slice r.topics))) [
    | inl e ↦ rw (subscribe, e) (add_topic_lem r i f v e)
    | inr (e, h) ↦
        rw (subscribe, h)
          (write_entry r i f e (add_subscriber e i) v h
            (add_subscriber_lem e i (find_valid f e (as_slice r.topics) v.entries h).0))
  ]

  pub default_registry-IsValid :
      c.max_topics < Heapless.u16_mod
      → c.max_subscribers_per_topic < Heapless.u16_mod
      → IsValid (default_registry {c = c})
  unfolding default_registry
  default_registry-IsValid h k =
      let (ok_v, empty) = new_lem {T = TopicEntry c} {N = c.max_topics} default_entry h in
      record { vec = ok_v; entries = rw empty tt; small = k }

module _ (c : Config) where
  pub subscribed-default_registry :
      c.max_topics < Heapless.u16_mod
      → (g : TopicName c.max_topic_name_length) (j : ℕ)
      → subscribed (default_registry {c = c}) g j ≡ false
  unfolding default_registry
  subscribed-default_registry h g j =
      ap (λ es. listed es g j) (new_lem {T = TopicEntry c} {N = c.max_topics} default_entry h).1
