-- ===== src/Topics.antt =====
-- src/topics.rs: the entries and the registry of topic filters. `Levels` has the matching.
pub mod Levels
pub mod Subscribers
pub mod Entries
pub mod Registry
pub mod Delivery
pub mod Unregister
pub mod Positions
pub mod Unsubscribe
pub mod Interested
pub mod Subscriptions
use picobroker.Base.{
  ℕ, zero, suc, ◌+◌, Bool, true, false, not, Option, none, some, List, [], ◌∷◌, leb, ◌==◌,
  if◌then◌else◌, length, get_elem?, set, position, find, any,
}
use picobroker.Base.Result.{Step, done, fail, crash, map_step, then_step}
use picobroker.Config.{Config}
use picobroker.Error.{
  BrokerError, max_subscribers_per_topic_reached, max_topics_reached, buffer_full,
}
use picobroker.Heapless
use picobroker.Heapless.{HeaplessVec, as_slice, push}
use picobroker.Packets.{TopicName}
use picobroker.Text
use picobroker.Text.{as_str, str_eq}
use Levels.{topic_matches}

pub record TopicEntry (c : Config) : Type 0 where
  pub topic_name : TopicName c.max_topic_name_length
  pub subscribers : HeaplessVec ℕ c.max_subscribers_per_topic

pub record TopicRegistry (c : Config) : Type 0 where
  pub topics : HeaplessVec (TopicEntry c) c.max_topics

abbrev pub contains : ℕ → List ℕ → Bool
contains a = any (λ x. x == a)

-- A subscriber is added unless it is there; that the result is full is ignored.
pub collect_one : {E : Type 0} {N : ℕ} → HeaplessVec ℕ N → ℕ → Step (HeaplessVec ℕ N) E (Unit {0})
collect_one found sub_id =
    if contains sub_id (as_slice found)
    then done found tt
    else elim (push found sub_id) [ done v _ ↦ done v tt | fail v _ ↦ done v tt | crash ↦ crash ]

pub collect_all :
    {E : Type 0} {N : ℕ} → List ℕ → HeaplessVec ℕ N → Step (HeaplessVec ℕ N) E (Unit {0})
unfolding collect_one
collect_all [] found = done found tt
collect_all (s ∷ subs) found = then_step (collect_one found s) (λ found' _. collect_all subs found')

module _ {c : Config} where
  abbrev pub default_entry : TopicEntry c
  default_entry = record { topic_name = Text.new; subscribers = Heapless.new 0 }

  pub default_registry : TopicRegistry c
  default_registry = record { topics = Heapless.new default_entry }

  pub new_entry : TopicName c.max_topic_name_length → TopicEntry c
  new_entry topic_name = record { topic_name = topic_name; subscribers = Heapless.new 0 }

  pub add_subscriber : TopicEntry c → ℕ → Step (TopicEntry c) BrokerError (Unit {0})
  add_subscriber e session_id =
      if contains session_id (as_slice e.subscribers)
      then done e tt
      else map_step (λ s. record e { subscribers = s })
          (λ _.
            max_subscribers_per_topic_reached (Heapless.len e.subscribers)
              c.max_subscribers_per_topic)
          (push e.subscribers session_id)

  pub remove_subscriber : {E : Type 0} → TopicEntry c → ℕ → Step (TopicEntry c) E Bool
  remove_subscriber e session_id = elim (position (λ x. x == session_id) (as_slice e.subscribers)) [
    | none ↦ done e false
    | some pos ↦
        then_step
          (map_step (λ s. record e { subscribers = s }) (λ x. x)
            (Heapless.remove e.subscribers pos))
          (λ e' _. done e' true)
  ]

  pub is_empty : TopicEntry c → Bool
  is_empty e = Heapless.is_empty e.subscribers

  abbrev pub named : TopicName c.max_topic_name_length → TopicEntry c → Bool
  named filter e = str_eq e.topic_name filter

  -- The branch of `subscribe` for a filter that has no entry yet.
  pub add_topic :
      TopicRegistry c
      → ℕ
      → TopicName c.max_topic_name_length
      → Step (TopicRegistry c) BrokerError (Unit {0})
  add_topic r session_id filter =
      let current = Heapless.len r.topics in
      if leb c.max_topics current
      then fail r (max_topics_reached current c.max_topics)
      else elim (add_subscriber (new_entry filter) session_id) [
        | done entry _ ↦
            map_step (λ t. record r { topics = t }) (λ _. buffer_full) (push r.topics entry)
        | fail _ e ↦ fail r e
        | crash ↦ crash
      ]

  pub subscribe :
      TopicRegistry c
      → ℕ
      → TopicName c.max_topic_name_length
      → Step (TopicRegistry c) BrokerError (Unit {0})
  unfolding add_topic
  subscribe r session_id filter = elim (find (named filter) (as_slice r.topics)) [
    | some entry ↦
        map_step (λ e. record r { topics = Heapless.modify (named filter) (λ _. e) r.topics })
          (λ x. x) (add_subscriber entry session_id)
    | none ↦ add_topic r session_id filter
  ]

  -- The entries from one on, for `get_subscribers`. A loop that runs out of fuel is a crash.
  pub collect_entries :
      {E : Type 0} {N : ℕ}
      → List ℕ
      → List (TopicEntry c)
      → HeaplessVec ℕ N
      → Step (HeaplessVec ℕ N) E (Unit {0})
  unfolding collect_all
  collect_entries published [] found = done found tt
  collect_entries published (e ∷ es) found = elim (topic_matches published (as_str e.topic_name)) [
    | none ↦ crash
    | some matched ↦
        then_step (if matched then collect_all (as_slice e.subscribers) found else done found tt)
          (λ found' _. collect_entries published es found')
  ]

  pub get_subscribers :
      {E : Type 0}
      → TopicRegistry c
      → TopicName c.max_topic_name_length
      → Step (HeaplessVec ℕ c.max_subscribers_per_topic) E (Unit {0})
  unfolding collect_entries
  get_subscribers r topic = collect_entries (as_str topic) (as_slice r.topics) (Heapless.new 0)

  -- `unsubscribe`, once the index of the filter's entry is known.
  unsubscribe_at :
      {E : Type 0} → TopicRegistry c → ℕ → ℕ → TopicEntry c → Step (TopicRegistry c) E Bool
  unsubscribe_at r session_id idx entry =
      then_step
        (map_step
          (λ e. record r { topics = Heapless.write_slice r.topics (set (as_slice r.topics) idx e) })
          (λ x. x) (remove_subscriber entry session_id))
        (λ r' removed. elim (get_elem? (as_slice r'.topics) idx) [
          | none ↦ crash
          | some e ↦
              if is_empty e
              then then_step
                  (map_step (λ t. record r' { topics = t }) (λ x. x)
                    (Heapless.remove r'.topics idx))
                  (λ r'' _. done r'' removed)
              else done r' removed
        ])

  pub unsubscribe :
      {E : Type 0}
      → TopicRegistry c
      → ℕ
      → TopicName c.max_topic_name_length
      → Step (TopicRegistry c) E Bool
  unfolding unsubscribe_at
  unsubscribe r session_id filter = elim (position (named filter) (as_slice r.topics)) [
    | none ↦ done r false
    | some idx ↦ elim (get_elem? (as_slice r.topics) idx) [
      | none ↦ crash
      | some entry ↦ unsubscribe_at r session_id idx entry
    ]
  ]

  -- The loop of `unregister_all`: the entries after it, and how many had the subscriber.
  remove_from_all : {E : Type 0} → ℕ → List (TopicEntry c) → Step (List (TopicEntry c)) E ℕ
  remove_from_all session_id [] = done [] 0
  remove_from_all session_id (e ∷ es) = elim (remove_subscriber e session_id) [
    | crash ↦ crash
    | fail e' x ↦ fail (e' ∷ es) x
    | done e' removed ↦
        then_step (remove_from_all session_id es)
          (λ es' n. done (e' ∷ es') (if removed then suc n else n))
  ]

  pub unregister_all : {E : Type 0} → TopicRegistry c → ℕ → Step (TopicRegistry c) E ℕ
  unfolding remove_from_all
  unregister_all r session_id =
      then_step
        (map_step (λ es. record r { topics = Heapless.write_slice r.topics es }) (λ x. x)
          (remove_from_all session_id (as_slice r.topics)))
        (λ r' n. done (record r' { topics = Heapless.retain (λ e. not (is_empty e)) r'.topics }) n)

  pub topic_count : TopicRegistry c → ℕ
  topic_count r = Heapless.len r.topics

  pub subscription_count : TopicRegistry c → ℕ
  subscription_count r = sum_counts (as_slice r.topics)
    where
      sum_counts : List (TopicEntry c) → ℕ
      sum_counts [] = 0
      sum_counts (e ∷ es) = Heapless.len e.subscribers + sum_counts es

  pub clear_all : TopicRegistry c → TopicRegistry c
  clear_all r = record r { topics = Heapless.clear r.topics }
