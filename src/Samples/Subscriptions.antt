-- ===== src/Samples/Subscriptions.antt =====
-- Subscriptions on a concrete sequence of calls, and their packets.
use picobroker.Base.{ℕ, ◌≡◌, false, List, [], ◌∷◌, Bool, some, arith, refl, replicate}
use picobroker.Base.Utf8.{is_utf8}
use picobroker.Codec.Subscribe.{encode_subscribe, encode_unsubscribe}
use picobroker.Codec.Subscribe.RoundTrip.{
  Sendable, SubscribeReadsBack, UnsubscribeReadsBack, decode-encode_filters,
}
use picobroker.Protocol.{at_least_once}
use picobroker.Topics.{TopicRegistry, default_registry}
use picobroker.Wire.{variable_length_length}
use picobroker.Topics.Subscriptions.{
  Change, subscribe_to, unsubscribe_from, unregister, changes, Delivers, promised_all,
  changes-Delivers,
}
use picobroker.Samples.Data.{config, name_a, name_plus}

-- Two sessions subscribe; one of them takes a filter back, the other is removed.
abbrev comings_and_goings : List (Change config)
comings_and_goings =
    subscribe_to 7 name_a
    ∷ subscribe_to 8 name_plus
    ∷ subscribe_to 7 name_plus
    ∷ unsubscribe_from 7 name_a
    ∷ unregister 8
    ∷ []

changes_example :
    (r : TopicRegistry config) × (accepted : List Bool) × (changes comings_and_goings
        default_registry
      ≡ some (r, accepted))
    × Delivers (promised_all comings_and_goings accepted (λ g j. false)) r
changes_example = changes-Delivers comings_and_goings (omega arith) (omega arith)

name_a-Sendable : Sendable 9 name_a
unfolding is_utf8
name_a-Sendable = record {
  topic = record { array = refl; within = omega arith; fits = omega arith; text = refl };
  named = omega arith;
  positive = omega arith;
  fits = omega arith;
}

abbrev room_12 : List ℕ
room_12 = replicate 12 0

filters_example :
    SubscribeReadsBack 9 name_a at_least_once (
      encode_subscribe
        (record { packet_id = 9; topic_filter = name_a; requested_qos = at_least_once })
        room_12)
    × UnsubscribeReadsBack 9 name_a
        (encode_unsubscribe (record { packet_id = 9; topic_filter = name_a }) room_12)
unfolding variable_length_length
filters_example =
    decode-encode_filters 9 name_a at_least_once room_12 name_a-Sendable (omega arith) (omega arith)
