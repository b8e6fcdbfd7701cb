-- ===== src/Topics/Subscribers.antt =====
-- src/topics.rs: the subscribers of one entry.
use picobroker.Base.{
  ℕ, zero, suc, ◌-◌, ◌<◌, ◌≡◌, refl, ◌∙◌, subst, true, false, not, ◌&&◌, ◌||◌, none, some, List, [],
  ◌∷◌, ◌++◌, arith, ◌==◌, ==→eq, length, position, position-lt, erase_at, Bool-cases, Option-cases,
  inl, inr,
}
use picobroker.Base.Result.{Step, done, fail, crash}
use picobroker.Config.{Config}
use picobroker.Error.{BrokerError, max_subscribers_per_topic_reached}
use picobroker.Heapless
use picobroker.Heapless.{HeaplessVec, as_slice}
use picobroker.Heapless.Laws.{push-Pushes, remove_lem, length-as_slice}
use picobroker.Topics.{TopicEntry, contains, add_subscriber, remove_subscriber}

-- No id stands twice.
abbrev pub Distinct : List ℕ → Type 0
Distinct [] = Unit {0}
Distinct (x ∷ xs) = (contains x xs ≡ false) × Distinct xs

pub contains-append :
    (xs : List ℕ) (i j : ℕ) → contains j (xs ++ i ∷ []) ≡ (contains j xs || (i == j))
contains-append [] i j = ground arith
contains-append (x ∷ xs) i j = ground (arith, contains-append xs i j)

pub append-Distinct :
    (xs : List ℕ) (i : ℕ) → contains i xs ≡ false → Distinct xs → Distinct (xs ++ i ∷ [])
append-Distinct [] i h d = (refl, tt)
append-Distinct (x ∷ xs) i h (a, d) =
    (ground (arith, contains-append xs i x), append-Distinct xs i (ground arith) d)

position-contains : (xs : List ℕ) (i : ℕ) → position (λ x. x == i) xs ≡ none → contains i xs ≡ false
position-contains [] i h = refl
position-contains (x ∷ xs) i h = ground (arith, position-contains xs i)

contains-erase_at :
    (xs : List ℕ) (i p j : ℕ)
    → Distinct xs
    → position (λ x. x == i) xs ≡ some p
    → contains j (erase_at p xs) ≡ (contains j xs && not (i == j))
contains-erase_at [] i p j d h = ground arith
contains-erase_at (x ∷ xs) i p j (a, d) h = ground (arith, contains-erase_at xs i (p - 1) j d)

contains-erase_at-false :
    (xs : List ℕ) (p j : ℕ) → contains j xs ≡ false → contains j (erase_at p xs) ≡ false
contains-erase_at-false [] p j h = h
contains-erase_at-false (x ∷ xs) zero j h = ground arith
contains-erase_at-false (x ∷ xs) (suc p) j h = ground (arith, contains-erase_at-false xs p j)

erase_at-Distinct : (xs : List ℕ) (p : ℕ) → Distinct xs → Distinct (erase_at p xs)
erase_at-Distinct [] p d = tt
erase_at-Distinct (x ∷ xs) zero (a, d) = d
erase_at-Distinct (x ∷ xs) (suc p) (a, d) =
    (contains-erase_at-false xs p x a, erase_at-Distinct xs p d)

pub there_already :
    (xs : List ℕ) (i j : ℕ) → contains i xs ≡ true → contains j xs ≡ (contains j xs || (i == j))
there_already xs i j h = elim (Bool-cases (i == j)) [
  | inl hit ↦ rw (hit, subst (λ k. contains k xs ≡ true) (==→eq i j hit) h) refl
  | inr miss ↦ ground arith
]

absent_already :
    (xs : List ℕ) (i j : ℕ)
    → contains i xs ≡ false
    → contains j xs ≡ (contains j xs && not (i == j))
absent_already xs i j h = elim (Bool-cases (i == j)) [
  | inl hit ↦ rw (hit, subst (λ k. contains k xs ≡ false) (==→eq i j hit) h) refl
  | inr miss ↦ ground arith
]

position-contains-some :
    (xs : List ℕ) (i p : ℕ) → position (λ x. x == i) xs ≡ some p → contains i xs ≡ true
position-contains-some [] i p h = cc
position-contains-some (x ∷ xs) i p h = ground (arith, position-contains-some xs i (p - 1))

module _ {c : Config} where
  -- The vector of the subscribers is in order, and no subscriber stands twice.
  pub record EntryIsValid (e : TopicEntry c) : Type 0 where
    pub vec : Heapless.IsValid e.subscribers
    pub distinct : Distinct (as_slice e.subscribers)

  -- What adding a subscriber does: the entry has it beside those of before, or is full.
  abbrev pub Adds : TopicEntry c → ℕ → Step (TopicEntry c) BrokerError (Unit {0}) → Type 0
  Adds e i (done e' _) =
      EntryIsValid e'
      × (e'.topic_name ≡ e.topic_name)
      × ((j : ℕ)
          → contains j (as_slice e'.subscribers)
            ≡ (contains j (as_slice e.subscribers) || (i == j)))
  Adds e i (fail e' x) =
      (e' ≡ e)
      × (x
          ≡ max_subscribers_per_topic_reached (Heapless.len e.subscribers)
              c.max_subscribers_per_topic)
      × (length (as_slice e.subscribers) ≡ c.max_subscribers_per_topic)
      × (contains i (as_slice e.subscribers) ≡ false)
  Adds e i crash = ⊥

  pub add_subscriber_lem :
      (e : TopicEntry c) (i : ℕ) → EntryIsValid e → Adds e i (add_subscriber e i)
  unfolding add_subscriber
  add_subscriber_lem e i v = elim (Bool-cases (contains i (as_slice e.subscribers))) [
    | inl here ↦ rw here (v, refl, λ j. there_already (as_slice e.subscribers) i j here)
    | inr new_one ↦ elim (push-Pushes e.subscribers i v.vec) [
      | inl (w, m, ok_w, room, app) ↦
          rw (new_one, m)
            (
              record {
                vec = ok_w;
                distinct = rw app (append-Distinct (as_slice e.subscribers) i new_one v.distinct);
              },
              refl,
              λ j. rw app (contains-append (as_slice e.subscribers) i j),
            )
      | inr (m, full) ↦
          rw (new_one, m) (refl, refl, length-as_slice e.subscribers v.vec ∙ full, new_one)
    ]
  ]

  pub remove_subscriber_lem :
      {E : Type 0} (e : TopicEntry c) (i : ℕ)
      → EntryIsValid e
      → (e' : TopicEntry c) × (remove_subscriber {E = E} e i
          ≡ done e' (contains i (as_slice e.subscribers)))
        × EntryIsValid e'
        × (e'.topic_name ≡ e.topic_name)
        × ((j : ℕ)
            → contains j (as_slice e'.subscribers)
              ≡ (contains j (as_slice e.subscribers) && not (i == j)))
  unfolding remove_subscriber
  remove_subscriber_lem {E} e i v =
      elim (Option-cases (position (λ x. x == i) (as_slice e.subscribers))) [
        | inl absent ↦
            let no = position-contains (as_slice e.subscribers) i absent in
            (
              e,
              rw (no, remove_subscriber, absent) refl,
              v,
              refl,
              λ j. absent_already (as_slice e.subscribers) i j no,
            )
        | inr (p, there) ↦
            let lt : p < e.subscribers.length = omega (
              arith,
              position-lt (λ x. x == i) (as_slice e.subscribers) p there,
              length-as_slice e.subscribers v.vec,
            ) in
            let (w, m, ok_w, app) = remove_lem {E = E} e.subscribers p v.vec lt in
            (
              record e { subscribers = w },
              rw
                  (
                    position-contains-some (as_slice e.subscribers) i p there,
                    remove_subscriber,
                    there,
                    m,
                  )
                  refl,
              record {
                vec = ok_w;
                distinct = rw app (erase_at-Distinct (as_slice e.subscribers) p v.distinct);
              },
              refl,
              λ j. rw app (contains-erase_at (as_slice e.subscribers) i p j v.distinct there),
            )
      ]
