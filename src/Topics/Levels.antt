-- ===== src/Topics/Levels.antt =====
-- src/topics.rs: `LevelIterator` and `topic_matches`. A `str` is the list of its bytes.
pub mod Split
pub mod Matching
pub mod Rules
use picobroker.Base.{
  ℕ, zero, suc, ◌+◌, Bool, true, false, Option, none, some, List, [], ◌∷◌, ◌==◌, if◌then◌else◌,
  length, take, drop, position,
}
use picobroker.Text.{bytes_eq}

abbrev pub Level : Type 0
Level = List ℕ

abbrev pub slash : ℕ
slash = b'/'

abbrev pub is_slash : ℕ → Bool
is_slash b = b == slash

abbrev pub hash_level : Level
hash_level = b'#' ∷ []

abbrev pub plus_level : Level
plus_level = b'+' ∷ []

abbrev pub is_nil {ℓ} : {A : Type ℓ} → List A → Bool
is_nil [] = true
is_nil (x ∷ xs) = false

abbrev pub is_none {ℓ} : {A : Type ℓ} → Option A → Bool
is_none none = true
is_none (some a) = false

pub record LevelIterator : Type 0 where
  pub remaining : List ℕ
  pub pending_empty : Bool

pub new : List ℕ → LevelIterator
new topic = record { remaining = topic; pending_empty = false }

-- The part of `next` that looks for a slash in what remains.
next_level : LevelIterator → Option ℕ → LevelIterator × Option Level
next_level it (some pos) =
    let rest = drop (suc pos) it.remaining in
    (record it { remaining = rest; pending_empty = is_nil rest }, some (take pos it.remaining))
next_level it none = (record it { remaining = [] }, some it.remaining)

pub next : LevelIterator → LevelIterator × Option Level
unfolding next_level
next it =
    if it.pending_empty
    then (record it { pending_empty = false }, some [])
    else if is_nil it.remaining
    then (it, none)
    else next_level it (position is_slash it.remaining)

-- `level == "#" && sub_levels.next().is_none()`: `next` is called on a "#" only.
ends_with_hash : Level → LevelIterator → LevelIterator × Bool
unfolding next
ends_with_hash level subs =
    if bytes_eq level hash_level
    then (let (subs', after) = next subs in (subs', is_none after))
    else (subs, false)

-- The rest of a round, after the test for a final "#".
continue_match :
    Option Level → Level → LevelIterator × Bool → (LevelIterator → Option Bool) → Option Bool
continue_match pub_level sub_level (subs, true) again = some true
continue_match none sub_level (subs, false) again = some false
continue_match (some level) sub_level (subs, false) again =
    if bytes_eq sub_level plus_level
    then again subs
    else if bytes_eq level sub_level
    then again subs
    else some false

-- The loop with fuel; `none` means that the fuel ran out.
pub match_loop : ℕ → LevelIterator → LevelIterator → Option Bool
unfolding ends_with_hash continue_match
match_loop zero pubs subs = none
match_loop (suc fuel) pubs subs =
    let (pubs', pub_level) = next pubs in
    let (subs', sub_level) = next subs in
    elim sub_level [
      | none ↦ some (is_none pub_level)
      | some level ↦
          continue_match pub_level level (ends_with_hash level subs') (match_loop fuel pubs')
    ]

-- A filter of n bytes has at most n + 1 levels, and each round but the last takes one.
pub topic_matches : List ℕ → List ℕ → Option Bool
topic_matches published filter = match_loop (length filter + 2) (new published) (new filter)
