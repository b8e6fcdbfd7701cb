-- ===== src/Topics/Levels/Split.antt =====
-- What `LevelIterator` yields: the parts of the text between its slashes.
use picobroker.Base.{
  ℕ, zero, suc, ◌+◌, ◌≤◌, ◌≡◌, refl, sym, ap, ◌∙◌, ◌⊎◌, inl, inr, Bool, true, false, Option, none,
  some, List, [], ◌∷◌, arith, if◌then◌else◌, length, take, drop, position, Bool-cases, Option-cases,
}
use picobroker.Topics.Levels.{Level, is_slash, is_nil, LevelIterator, new, next, next_level}

-- A byte put in front of the first part.
abbrev prepend : ℕ → List Level → List Level
prepend c [] = (c ∷ []) ∷ []
prepend c (l ∷ ls) = (c ∷ l) ∷ ls

unfoldable pub split : List ℕ → List Level
split [] = [] ∷ []
split (c ∷ cs) = let rest = split cs in if is_slash c then [] ∷ rest else prepend c rest

-- The empty text has no level, not one empty level.
unfoldable pub levels : List ℕ → List Level
levels [] = []
levels (c ∷ cs) = split (c ∷ cs)

-- What the iterator still has to yield.
pub contents : LevelIterator → List Level
contents it = if it.pending_empty then [] ∷ levels it.remaining else levels it.remaining

split-none : (s : List ℕ) → position is_slash s ≡ none → split s ≡ s ∷ []
unfolding split
split-none [] e = refl
split-none (c ∷ cs) e = ground (arith, split-none cs)

split-some :
    (s : List ℕ) (pos : ℕ)
    → position is_slash s ≡ some pos
    → split s ≡ take pos s ∷ split (drop (suc pos) s)
unfolding split
split-some [] pos e = cc
split-some (c ∷ cs) zero e = ground arith
split-some (c ∷ cs) (suc pos) e = ground (arith, split-some cs pos)

split_rest : (rest : List ℕ) → (if is_nil rest then [] ∷ levels rest else levels rest) ≡ split rest
unfolding split levels
split_rest [] = refl
split_rest (c ∷ cs) = refl

-- A call of `next` takes the first of the levels that are left, and gives nothing at the end.
abbrev pub Yields : List Level → LevelIterator × Option Level → Type 0
Yields ls r =
    ((ls ≡ []) × (r.1 ≡ none) × (contents r.0 ≡ []))
    ⊎ ((l : Level) × (r.1 ≡ some l) × (ls ≡ l ∷ contents r.0))

Yields-at :
    (p : Bool) (r : List ℕ)
    → Yields
        (contents (record { remaining = r; pending_empty = p }))
        (next (record { remaining = r; pending_empty = p }))
unfolding contents next levels
Yields-at true r = inr ([], refl, refl)
Yields-at false [] = inl (refl, refl, refl)
Yields-at false (c ∷ cs) = elim (Option-cases (position is_slash (c ∷ cs))) [
  | inl e ↦ rw (e, next_level) (inr (c ∷ cs, refl, split-none (c ∷ cs) e))
  | inr (pos, e) ↦
      rw (e, next_level)
        (inr (
          take pos (c ∷ cs),
          refl,
          split-some (c ∷ cs) pos e
              ∙ ap (◌∷◌ (take pos (c ∷ cs))) (sym (split_rest (drop (suc pos) (c ∷ cs)))),
        ))
]

pub next-Yields : (it : LevelIterator) → Yields (contents it) (next it)
next-Yields it = Yields-at it.pending_empty it.remaining

length-split : (s : List ℕ) → (1 ≤ length (split s)) × (length (split s) ≤ length s + 1)
unfolding split
length-split [] = omega arith
length-split (c ∷ cs) = elim (Bool-cases (is_slash c)) [
  | inl e ↦ rw e (omega (arith, length-split cs))
  | inr e ↦ rw e (prepended (split cs) (length-split cs))
]
  where
    prepended :
        (ls : List Level)
        → (1 ≤ length ls) × (length ls ≤ length cs + 1)
        → (1 ≤ length (prepend c ls)) × (length (prepend c ls) ≤ suc (length cs) + 1)
    prepended [] h = omega arith
    prepended (l ∷ ls) h = omega arith

pub length-levels : (s : List ℕ) → length (levels s) ≤ length s + 1
unfolding levels
length-levels [] = omega arith
length-levels (c ∷ cs) = (length-split (c ∷ cs)).1

pub contents-new : (s : List ℕ) → contents (new s) ≡ levels s
unfolding contents new
contents-new s = refl
