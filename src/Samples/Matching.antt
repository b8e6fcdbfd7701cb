-- ===== src/Samples/Matching.antt =====
-- Topics and filters on concrete texts.
use picobroker.Base.{ℕ, ◌≡◌, ◌≢◌, ◌↔◌, refl, inr, some, List, [], ◌∷◌, true, arith}
use picobroker.Topics.Levels.{hash_level, topic_matches}
use picobroker.Topics.Levels.Split.{levels, split}
use picobroker.Topics.Levels.Matching.{match_levels, topic_matches_lem}
use picobroker.Topics.Levels.Rules.{
  IsFilter, IsHidden, Matches, ended, single, literal, MqttMatches, topic_matches_iff,
  topic_matches_hidden, topic_matches_misplaced,
}

-- "a/b", "+/b", "#/b/c" and "#/c"
abbrev a_b : List ℕ
a_b = b'a' ∷ b'/' ∷ b'b' ∷ []

abbrev plus_b : List ℕ
plus_b = b'+' ∷ b'/' ∷ b'b' ∷ []

topic_matches_lem_example :
    topic_matches a_b plus_b ≡ some (match_levels (levels a_b) (levels plus_b))
topic_matches_lem_example = topic_matches_lem a_b plus_b

plus_b-IsFilter : IsFilter (levels plus_b)
unfolding levels split
plus_b-IsFilter = (plus_not_hash, tt)
  where
    plus_not_hash : b'+' ∷ [] ≢ hash_level
    plus_not_hash e = cc e

plus_b-shown : ¬ IsHidden a_b (levels plus_b)
unfolding levels split
plus_b-shown h = absurd (omega (arith, h.0))

topic_matches_iff_example : (topic_matches a_b plus_b ≡ some true) ↔ MqttMatches a_b plus_b
topic_matches_iff_example = topic_matches_iff a_b plus_b plus_b-IsFilter plus_b-shown

-- "$x/b" against "+/b"
abbrev dollar_b : List ℕ
dollar_b = b'$' ∷ b'x' ∷ b'/' ∷ b'b' ∷ []

dollar_b-IsHidden : IsHidden dollar_b (levels plus_b)
unfolding levels split
dollar_b-IsHidden = (refl, inr refl)

dollar_b-Matches : Matches (levels dollar_b) (levels plus_b)
unfolding levels split
dollar_b-Matches = single refl (literal refl ended)

topic_matches_hidden_example :
    (topic_matches dollar_b plus_b ≡ some true) × ¬ MqttMatches dollar_b plus_b
topic_matches_hidden_example =
    topic_matches_hidden dollar_b plus_b plus_b-IsFilter dollar_b-IsHidden dollar_b-Matches

-- "#" and "#/b"
abbrev hash : List ℕ
hash = b'#' ∷ []

abbrev hash_b : List ℕ
hash_b = b'#' ∷ b'/' ∷ b'b' ∷ []

hash-levels : levels hash ≡ hash_level ∷ []
unfolding levels split
hash-levels = refl

hash_b-levels : levels hash_b ≡ hash_level ∷ (b'b' ∷ []) ∷ []
unfolding levels split
hash_b-levels = refl

topic_matches_misplaced_example : topic_matches hash hash_b ≡ some (match_levels [] [])
topic_matches_misplaced_example = topic_matches_misplaced hash hash_b hash-levels hash_b-levels
