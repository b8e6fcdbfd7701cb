-- ===== src/Topics/Levels/Matching.antt =====
-- `topic_matches` on the levels of the two texts, and against the rules of MQTT.
use picobroker.Base.{
  ℕ, zero, suc, ◌+◌, ◌<◌, ◌≡◌, inl, inr, Bool, true, false, Option, some, List, [], ◌∷◌, arith,
  if◌then◌else◌, length, Bool-cases,
}
use picobroker.Text.{bytes_eq}
use picobroker.Topics.Levels.{
  Level, hash_level, plus_level, is_nil, LevelIterator, new, next, continue_match, match_loop,
  topic_matches,
}
use picobroker.Topics.Levels.Split.{
  levels, contents, next-Yields, length-levels, contents-new, Yields,
}

-- One level of the filter against the published levels.
abbrev pub match_one : List Level → Level → (List Level → Bool) → Bool
match_one [] s again = false
match_one (x ∷ xs) s again =
    if bytes_eq s plus_level then again xs else if bytes_eq x s then again xs else false

-- What the loop answers, on lists of levels. A "#" before the end swallows the level after it.
unfoldable pub match_levels : List Level → List Level → Bool
match_levels ps [] = is_nil ps
match_levels ps (s ∷ []) =
    if bytes_eq s hash_level then true else match_one ps s (λ xs. match_levels xs [])
match_levels ps (s ∷ t ∷ ss) =
    if bytes_eq s hash_level
    then match_one ps s (λ xs. match_levels xs ss)
    else match_one ps s (λ xs. match_levels xs (t ∷ ss))

pub match_levels_plain :
    (ps : List Level) (s : Level) (ss : List Level)
    → bytes_eq s hash_level ≡ false
    → match_levels ps (s ∷ ss) ≡ match_one ps s (λ xs. match_levels xs ss)
unfolding match_levels
match_levels_plain ps s [] e = rw e
match_levels_plain ps s (t ∷ ss) e = rw e

pub match_levels_hash :
    (ps : List Level) (s t : Level) (ss : List Level)
    → bytes_eq s hash_level ≡ true
    → match_levels ps (s ∷ t ∷ ss) ≡ match_one ps s (λ xs. match_levels xs ss)
unfolding match_levels
match_levels_hash ps s t ss e = rw e

-- A round that is not ended by a final "#".
continue_match_lem :
    (r : LevelIterator × Option Level) (ls : List Level) (s : Level) (subs : LevelIterator)
    (again : LevelIterator → Option Bool) (k : List Level → Bool)
    → Yields ls r
    → again subs ≡ some (k (contents r.0))
    → continue_match r.1 s (subs, false) again ≡ some (match_one ls s k)
unfolding continue_match
continue_match_lem r ls s subs again k (inl (e, n, c)) ih = rw (e, n)
continue_match_lem r ls s subs again k (inr (l, n, c)) ih =
    rw (c, n)
      (elim (Bool-cases (bytes_eq s plus_level)) [
        | inl plus ↦ rw plus ih
        | inr other ↦ elim (Bool-cases (bytes_eq l s)) [
          | inl same ↦ rw (other, same) ih
          | inr differ ↦ rw (other, differ)
        ]
      ])

-- One round of the loop, given what the loop answers in the rounds after it.
match_loop_round :
    (fuel : ℕ) (pubs subs : LevelIterator)
    → ((subs' : LevelIterator)
        → length (contents subs') < length (contents subs)
        → match_loop fuel (next pubs).0 subs'
          ≡ some (match_levels (contents (next pubs).0) (contents subs')))
    → match_loop (suc fuel) pubs subs ≡ some (match_levels (contents pubs) (contents subs))
unfolding match_loop
match_loop_round fuel pubs subs ih = elim (next-Yields subs) [
  | inl (e, n, c) ↦
      rw (e, n, match_loop)
        (elim (next-Yields pubs) [
          | inl (e', n', c') ↦ unfold match_levels in rw (e', n')
          | inr (l, n', c') ↦ unfold match_levels in rw (c', n')
        ])
  | inr (s, n, c) ↦ elim (Bool-cases (bytes_eq s hash_level)) [
    | inr plain ↦
        rw (c, n, match_loop, plain, match_levels_plain)
          (continue_match_lem (next pubs) (contents pubs) s (next subs).0 _ _ (next-Yields pubs)
            (ih (next subs).0 (rw c (omega arith))))
    | inl hash ↦ elim (next-Yields (next subs).0) [
      | inl (e2, n2, c2) ↦
          rw (c, n, match_loop, hash, n2, e2) (unfold match_levels continue_match in rw hash)
      | inr (t, n2, c2) ↦
          rw (c, n, match_loop, hash, n2, c2, match_levels_hash _ s t _ hash)
            (continue_match_lem (next pubs) (contents pubs) s (next (next subs).0).0 _ _
              (next-Yields pubs) (ih (next (next subs).0).0 (rw (c, c2) (omega arith))))
    ]
  ]
]

match_loop_lem :
    (fuel : ℕ) (pubs subs : LevelIterator)
    → length (contents subs) < fuel
    → match_loop fuel pubs subs ≡ some (match_levels (contents pubs) (contents subs))
match_loop_lem zero pubs subs h = elim h [ ]
match_loop_lem (suc fuel) pubs subs h =
    match_loop_round fuel pubs subs
      (λ subs' k. match_loop_lem fuel (next pubs).0 subs' (omega arith))

-- Whether a filter matches a topic, by their levels.
abbrev pub matches : List ℕ → List ℕ → Bool
matches published filter = match_levels (levels published) (levels filter)

-- For any two texts topic_matches does not run out of its fuel (none), which is the length of
-- the filter plus 2, and its answer is that of match_levels, a recursion over the lists of their
-- levels.
pub topic_matches_lem :
    (published filter : List ℕ)
    → topic_matches published filter ≡ some (match_levels (levels published) (levels filter))
unfolding topic_matches
topic_matches_lem published filter =
    rw (← contents-new published, ← contents-new filter)
      (match_loop_lem (length filter + 2) (new published) (new filter)
        (rw contents-new (omega (arith, length-levels filter))))
