-- ===== src/Topics/Delivery.antt =====
-- src/topics.rs: `get_subscribers`.
use picobroker.Base.{
  or_false, ℕ, ◌≤◌, ◌<◌, ◌≡◌, refl, sym, ap, ◌∙◌, Bool, true, false, ◌&&◌, ◌||◌, List, [], ◌∷◌,
  arith, ◌==◌, if◌then◌else◌, length, length-append, Bool-cases, inl, inr,
}
use picobroker.Base.Result.{done}
use picobroker.Config.{Config}
use picobroker.Heapless
use picobroker.Heapless.{HeaplessVec, as_slice, push}
use picobroker.Heapless.Laws.{push-Pushes, new_lem, length-as_slice}
use picobroker.Packets.{TopicName}
use picobroker.Text.{as_str}
use picobroker.Topics.{
  TopicEntry, TopicRegistry, contains, collect_one, collect_all, collect_entries, get_subscribers,
}
use picobroker.Topics.Levels.Matching.{matches, topic_matches_lem}
use picobroker.Topics.Subscribers.{Distinct, contains-append, append-Distinct, there_already}
use picobroker.Topics.Registry.{IsValid}

-- The ids that were found before and those wanted, each once, and all of them unless the vector is
-- full.
record Collected {N : ℕ} (found : HeaplessVec ℕ N) (want : ℕ → Bool) (v : HeaplessVec ℕ N)
    : Type 0 where
  pub vec : Heapless.IsValid v
  pub distinct : Distinct (as_slice v)
  pub grows : found.length ≤ v.length
  pub sound :
      (j : ℕ) → contains j (as_slice v) ≡ true → (contains j (as_slice found) || want j) ≡ true
  pub complete :
      v.length < N → (j : ℕ) → contains j (as_slice v) ≡ (contains j (as_slice found) || want j)

or_assoc : (a b d : Bool) → ((a || b) || d) ≡ (a || (b || d))
or_assoc true b d = refl
or_assoc false b d = refl

if_or : (a b : Bool) → (a || b) ≡ (if a then true else b)
if_or true b = refl
if_or false b = refl

or_left : (a b d : Bool) → (a ≡ true → (b ≡ true)) → (a || d) ≡ true → (b || d) ≡ true
or_left true b d h e = rw (h refl) refl
or_left false b true h e = ground arith
or_left false b false h e = cc

or_known : (a b : Bool) → a ≡ true → (a || b) ≡ true
or_known true b h = refl
or_known false b h = cc

module _ {N : ℕ} where
  nothing_more :
      (found : HeaplessVec ℕ N)
      → Heapless.IsValid found
      → Distinct (as_slice found)
      → Collected found (λ _. false) found
  nothing_more found v d = record {
    vec = v;
    distinct = d;
    grows = omega arith;
    sound = λ j h. or_known (contains j (as_slice found)) false h;
    complete = λ _ j. or_false (contains j (as_slice found));
  }

  and_then :
      (f v u : HeaplessVec ℕ N) (a b : ℕ → Bool)
      → Collected f a v
      → Collected v b u
      → Collected f (λ j. a j || b j) u
  and_then f v u a b h k = record {
    vec = k.vec;
    distinct = k.distinct;
    grows = omega (arith, h.grows, k.grows);
    sound = λ j e.
        sym (or_assoc (contains j (as_slice f)) (a j) (b j))
        ∙ or_left (contains j (as_slice v)) _ (b j) (h.sound j) (k.sound j e);
    complete = λ lt j.
        k.complete lt j
        ∙ ap (λ t. t || b j) (h.complete (omega (arith, lt, k.grows)) j)
        ∙ or_assoc (contains j (as_slice f)) (a j) (b j);
  }

  same_want :
      (f v : HeaplessVec ℕ N) (a b : ℕ → Bool)
      → ((j : ℕ) → a j ≡ b j)
      → Collected f a v
      → Collected f b v
  same_want f v a b e h = record {
    vec = h.vec;
    distinct = h.distinct;
    grows = h.grows;
    sound = λ j m. ap (λ t. contains j (as_slice f) || t) (sym (e j)) ∙ h.sound j m;
    complete = λ lt j. h.complete lt j ∙ ap (λ t. contains j (as_slice f) || t) (e j);
  }

  collect_one_lem :
      {E : Type 0} (found : HeaplessVec ℕ N) (i : ℕ)
      → Heapless.IsValid found
      → Distinct (as_slice found)
      → (v : HeaplessVec ℕ N) × (collect_one {E = E} found i ≡ done v tt)
        × Collected found (λ j. i == j) v
  unfolding collect_one
  collect_one_lem {E} found i v d = elim (Bool-cases (contains i (as_slice found))) [
    | inl here ↦ (
      found,
      rw here refl,
      record {
        vec = v;
        distinct = d;
        grows = omega arith;
        sound = λ j h. or_known (contains j (as_slice found)) _ h;
        complete = λ _ j. there_already (as_slice found) i j here;
      },
    )
    | inr new_one ↦ elim (push-Pushes found i v) [
      | inl (w, m, ok_w, room, app) ↦ (
        w,
        rw (new_one, m) refl,
        record {
          vec = ok_w;
          distinct = rw app (append-Distinct (as_slice found) i new_one d);
          grows = omega (
            arith,
            length-as_slice found v,
            length-as_slice w ok_w,
            ap length app,
            length-append (as_slice found) (i ∷ []),
          );
          sound = λ j h. sym (contains-append (as_slice found) i j) ∙ (rw app at h);
          complete = λ _ j. rw app (contains-append (as_slice found) i j);
        },
      )
      | inr (m, full) ↦ (
        found,
        rw (new_one, m) refl,
        record {
          vec = v;
          distinct = d;
          grows = omega arith;
          sound = λ j h. or_known (contains j (as_slice found)) _ h;
          complete = λ lt j. absurd (omega arith);
        },
      )
    ]
  ]

  collect_all_lem :
      {E : Type 0} (ids : List ℕ) (found : HeaplessVec ℕ N)
      → Heapless.IsValid found
      → Distinct (as_slice found)
      → (v : HeaplessVec ℕ N) × (collect_all {E = E} ids found ≡ done v tt)
        × Collected found (λ j. contains j ids) v
  unfolding collect_all
  collect_all_lem [] found v d = (found, refl, nothing_more found v d)
  collect_all_lem {E} (i ∷ ids) found v d =
      let (w, e, h) = collect_one_lem {E = E} found i v d in
      let (u, e', k) = collect_all_lem {E = E} ids w h.vec h.distinct in
      (
        u,
        rw (collect_all, e) e',
        same_want found u _ (λ j. contains j (i ∷ ids)) (λ j. if_or (i == j) (contains j ids))
            (and_then found w u (λ j. i == j) (λ j. contains j ids) h k),
      )

module _ {c : Config} where
  -- Whether a session is subscribed under some filter that the published topic matches.
  abbrev pub interested : List ℕ → List (TopicEntry c) → ℕ → Bool
  interested published [] j = false
  interested published (e ∷ es) j =
      (matches published (as_str e.topic_name) && contains j (as_slice e.subscribers))
      || interested published es j

  collect_entries_lem :
      {E : Type 0} {N : ℕ} (published : List ℕ) (es : List (TopicEntry c)) (found : HeaplessVec ℕ N)
      → Heapless.IsValid found
      → Distinct (as_slice found)
      → (v : HeaplessVec ℕ N) × (collect_entries {E = E} published es found ≡ done v tt)
        × Collected found (interested published es) v
  unfolding collect_entries
  collect_entries_lem published [] found v d = (found, refl, nothing_more found v d)
  collect_entries_lem {E} published (e ∷ es) found v d =
      elim (Bool-cases (matches published (as_str e.topic_name))) [
        | inl yes_it_does ↦
            let (w, m, h) = collect_all_lem {E = E} (as_slice e.subscribers) found v d in
            let (u, m', k) = collect_entries_lem {E = E} published es w h.vec h.distinct in
            (
              u,
              rw (collect_entries, topic_matches_lem, yes_it_does, m) m',
              same_want found u _ (interested published (e ∷ es)) (λ j. rw yes_it_does refl)
                  (and_then found w u (λ j. contains j (as_slice e.subscribers))
                    (interested published es) h k),
            )
        | inr differs ↦
            let (u, m', k) = collect_entries_lem {E = E} published es found v d in
            (
              u,
              rw (collect_entries, topic_matches_lem, differs) m',
              same_want found u _ (interested published (e ∷ es)) (λ j. rw differs refl) k,
            )
      ]

  -- On a valid topic registry, get_subscribers does not panic and gives a valid vector without
  -- duplicates. Each of its sessions is subscribed under a filter that the topic matches, and if
  -- the vector is not full, each such session is in it.
  pub get_subscribers_lem :
      {E : Type 0} (r : TopicRegistry c) (topic : TopicName c.max_topic_name_length)
      → IsValid r
      → (v : HeaplessVec ℕ c.max_subscribers_per_topic) × (get_subscribers {E = E} r topic
          ≡ done v tt)
        × Heapless.IsValid v
        × Distinct (as_slice v)
        × ((j : ℕ)
            → contains j (as_slice v) ≡ true
            → interested (as_str topic) (as_slice r.topics) j ≡ true)
        × (v.length < c.max_subscribers_per_topic
            → (j : ℕ) → contains j (as_slice v) ≡ interested (as_str topic) (as_slice r.topics) j)
  unfolding get_subscribers
  get_subscribers_lem {E} r topic v =
      let (ok_new, empty) = new_lem {T = ℕ} {N = c.max_subscribers_per_topic} 0 v.small in
      let (u, m, k) =
        collect_entries_lem {E = E} (as_str topic) (as_slice r.topics) (Heapless.new 0) ok_new
          (rw empty tt) in
      (
        u,
        m,
        k.vec,
        k.distinct,
        λ j h.
            ap (λ xs. contains j xs || interested (as_str topic) (as_slice r.topics) j) (sym empty)
            ∙ k.sound j h,
        λ lt j.
            k.complete lt j
            ∙ ap (λ xs. contains j xs || interested (as_str topic) (as_slice r.topics) j) empty,
      )
