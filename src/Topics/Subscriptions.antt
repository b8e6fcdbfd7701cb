-- ===== src/Topics/Subscriptions.antt =====
-- The topic registry beside what it promises: a set of pairs of a filter and a session.
use picobroker.Base.{
  ℕ, ◌<◌, ◌≡◌, refl, sym, ap, ◌∙◌, Bool, true, false, not, ◌&&◌, ◌||◌, ◌==◌, Option, none, some,
  List, [], ◌∷◌,
}
use picobroker.Base.Result.{Step, done, fail, crash}
use picobroker.Config.{Config}
use picobroker.Error.{BrokerError}
use picobroker.Heapless.{HeaplessVec, as_slice, u16_mod}
use picobroker.Packets.{TopicName}
use picobroker.Text.{str_eq, as_str}
use picobroker.Topics.{
  TopicRegistry, contains, default_registry, subscribe, unsubscribe, unregister_all,
  get_subscribers,
}
use picobroker.Topics.Levels.{topic_matches}
use picobroker.Topics.Levels.Matching.{topic_matches_lem}
use picobroker.Topics.Registry.{
  IsValid, subscribed, Subscribes, subscribe-Subscribes, default_registry-IsValid,
  subscribed-default_registry,
}
use picobroker.Topics.Unregister.{unregister_all_lem}
use picobroker.Topics.Unsubscribe.{unsubscribe_lem}
use picobroker.Topics.Interested.{interested-listed, listed-interested}
use picobroker.Topics.Delivery.{get_subscribers_lem}

-- The calls that change who is subscribed.
pub data Change (c : Config) : Type 0 where
  subscribe_to unsubscribe_from : ℕ → TopicName c.max_topic_name_length → Change c
  unregister : ℕ → Change c

-- The abstract state.
abbrev pub Pairs : Config → Type 0
Pairs c = TopicName c.max_topic_name_length → ℕ → Bool

-- The state that a call leaves, and whether it returned Ok; none after a panic.
abbrev outcome_of : {S E A : Type 0} → Step S E A → Option (S × Bool)
outcome_of (done s a) = some (s, true)
outcome_of (fail s e) = some (s, false)
outcome_of crash = none

module _ {c : Config} where
  -- What a call promises: a subscription that is refused changes nothing.
  abbrev pub promised : Change c → Bool → Pairs c → Pairs c
  promised (subscribe_to i f) true p = λ g j. p g j || (str_eq f g && i == j)
  promised (subscribe_to i f) false p = p
  promised (unsubscribe_from i f) _ p = λ g j. p g j && not (str_eq f g && i == j)
  promised (unregister i) _ p = λ g j. p g j && not (i == j)

  pub change : Change c → TopicRegistry c → Option (TopicRegistry c × Bool)
  change (subscribe_to i f) r = outcome_of (subscribe r i f)
  change (unsubscribe_from i f) r = outcome_of (unsubscribe {E = BrokerError} r i f)
  change (unregister i) r = outcome_of (unregister_all {E = BrokerError} r i)

  -- The registry is in order and has exactly these pairs.
  pub record Refines (r : TopicRegistry c) (p : Pairs c) : Type 0 where
    pub valid : IsValid r
    pub pairs : (g : TopicName c.max_topic_name_length) (j : ℕ) → subscribed r g j ≡ p g j

  change-Refines :
      (k : Change c) (r : TopicRegistry c) (p : Pairs c)
      → Refines r p
      → (r' : TopicRegistry c) × (accepted : Bool) × (change k r ≡ some (r', accepted))
        × Refines r' (promised k accepted p)
  unfolding change
  change-Refines (subscribe_to i f) r p h =
      by_result (subscribe r i f) (subscribe-Subscribes r i f h.valid)
    where
      by_result :
          (m : Step (TopicRegistry c) BrokerError (Unit {0}))
          → Subscribes r i f m
          → (r' : TopicRegistry c) × (accepted : Bool) × (outcome_of m ≡ some (r', accepted))
            × Refines r' (promised (subscribe_to i f) accepted p)
      by_result (done r' u) (v, pairs) = (
        r',
        true,
        refl,
        record {
          valid = v;
          pairs = λ g j. pairs g j ∙ ap (λ b. b || (str_eq f g && i == j)) (h.pairs g j);
        },
      )
      by_result (fail r' e) (v, pairs) =
          (r', false, refl, record { valid = v; pairs = λ g j. pairs g j ∙ h.pairs g j })
      by_result crash bad = absurd bad
  change-Refines (unsubscribe_from i f) r p h =
      let (r', m, v, pairs) = unsubscribe_lem BrokerError r i f h.valid in
      (
        r',
        true,
        rw m refl,
        record {
          valid = v;
          pairs = λ g j. pairs g j ∙ ap (λ b. b && not (str_eq f g && i == j)) (h.pairs g j);
        },
      )
  change-Refines (unregister i) r p h =
      let (r', n, m, v, pairs) = unregister_all_lem {E = BrokerError} r i h.valid in
      (
        r',
        true,
        rw m refl,
        record { valid = v; pairs = λ g j. pairs g j ∙ ap (λ b. b && not (i == j)) (h.pairs g j) },
      )

  pub changes : List (Change c) → TopicRegistry c → Option (TopicRegistry c × List Bool)
  unfolding change
  changes [] r = some (r, [])
  changes (k ∷ ks) r = elim (change k r) [
    | none ↦ none
    | some (r', accepted) ↦ elim (changes ks r') [
      | none ↦ none
      | some (r'', rest) ↦ some (r'', accepted ∷ rest)
    ]
  ]

  -- The promises of the calls in turn, with what each returned.
  abbrev pub promised_all : List (Change c) → List Bool → Pairs c → Pairs c
  promised_all [] accepted p = p
  promised_all (k ∷ ks) [] p = p
  promised_all (k ∷ ks) (a ∷ accepted) p = promised_all ks accepted (promised k a p)

  changes-Refines :
      (ks : List (Change c)) (r : TopicRegistry c) (p : Pairs c)
      → Refines r p
      → (r' : TopicRegistry c) × (accepted : List Bool) × (changes ks r ≡ some (r', accepted))
        × Refines r' (promised_all ks accepted p)
  unfolding changes
  changes-Refines [] r p h = (r, [], refl, h)
  changes-Refines (k ∷ ks) r p h =
      let (r1, a, e, h1) = change-Refines k r p h in
      let (r2, rest, e', h2) = changes-Refines ks r1 (promised k a p) h1 in
      (r2, a ∷ rest, rw (changes, e, e') refl, h2)

  -- A registry that has exactly the promised pairs, and delivers by them.
  abbrev pub Delivers : Pairs c → TopicRegistry c → Type 0
  Delivers p r =
      ((g : TopicName c.max_topic_name_length) (j : ℕ) → subscribed r g j ≡ p g j)
      × ((topic : TopicName c.max_topic_name_length)
          → (v : HeaplessVec ℕ c.max_subscribers_per_topic) × (get_subscribers {E = BrokerError} r
                topic
              ≡ done v tt)
            × ((j : ℕ)
                → contains j (as_slice v) ≡ true
                → (f : TopicName c.max_topic_name_length) × (p f j ≡ true)
                  × (topic_matches (as_str topic) (as_str f) ≡ some true))
            × (v.length < c.max_subscribers_per_topic
                → (f : TopicName c.max_topic_name_length) (j : ℕ) → p f j ≡ true
                → topic_matches (as_str topic) (as_str f) ≡ some true
                → contains j (as_slice v) ≡ true))

  Refines-Delivers : (r : TopicRegistry c) (p : Pairs c) → Refines r p → Delivers p r
  Refines-Delivers r p h = (
    h.pairs,
    λ topic.
        let (v, m, _, _, sound, complete) = get_subscribers_lem {E = BrokerError} r topic h.valid in
        (
          v,
          m,
          λ j there.
              let (f, pair, it_matches) =
                interested-listed (as_str topic) (as_slice r.topics) j h.valid.entries
                  (sound j there) in
              (
                f,
                sym (h.pairs f j) ∙ pair,
                topic_matches_lem (as_str topic) (as_str f) ∙ ap some it_matches,
              ),
          λ lt f j pair matches.
              complete lt j
              ∙ listed-interested (as_str topic) (as_slice r.topics) f j (h.pairs f j ∙ pair)
                  (cc (topic_matches_lem (as_str topic) (as_str f))),
        ),
  )

  -- If the capacities fit a u16, any sequence of calls of subscribe, unsubscribe and
  -- unregister_all on a new topic registry runs without a panic, and the registry then refines a
  -- set of pairs of a filter and a session, in which each subscription that returned Ok adds its
  -- pair, one that returned an error changes nothing, and the other two calls take out their
  -- pairs: exactly the pairs of the set are subscribed, get_subscribers gives only sessions with
  -- a pair whose filter the topic matches, and gives all of those if its vector is not full.
  pub changes-Delivers :
      (ks : List (Change c))
      → c.max_topics < u16_mod
      → c.max_subscribers_per_topic < u16_mod
      → (r : TopicRegistry c) × (accepted : List Bool) × (changes ks default_registry
          ≡ some (r, accepted))
        × Delivers (promised_all ks accepted (λ g j. false)) r
  changes-Delivers ks h k =
      let (r, accepted, e, refines) =
        changes-Refines ks default_registry (λ g j. false)
          (record {
            valid = default_registry-IsValid h k;
            pairs = subscribed-default_registry c h;
          }) in
      (r, accepted, e, Refines-Delivers r (promised_all ks accepted (λ g j. false)) refines)
