-- ===== src/Topics/Unregister.antt =====
-- src/topics.rs: `unregister_all`.
use picobroker.Base.{
  ℕ, suc, ◌≡◌, refl, sym, ap, ◌∙◌, subst, Bool, false, not, ◌&&◌, List, [], ◌∷◌, arith, ◌==◌,
  if◌then◌else◌, length, any, select, Bool-cases, inl, inr,
}
use picobroker.Base.Result.{done}
use picobroker.Config.{Config}
use picobroker.Heapless
use picobroker.Heapless.{as_slice}
use picobroker.Heapless.Laws.{write_slice_lem, retain_lem, length-as_slice, is_empty_lem}
use picobroker.Packets.{TopicName}
use picobroker.Text.{str_eq}
use picobroker.Text.Laws.{str_eq_iff}
use picobroker.Topics.{
  TopicEntry, TopicRegistry, contains, named, is_empty, remove_from_all, unregister_all,
}
use picobroker.Topics.Subscribers.{remove_subscriber_lem}
use picobroker.Topics.Entries.{EntriesValid, listed}
use picobroker.Topics.Registry.{IsValid, subscribed}

module _ {c : Config} where
  -- Entries of the same names, without one session.
  record Without (i : ℕ) (es es' : List (TopicEntry c)) : Type 0 where
    pub valid : EntriesValid es'
    pub len : length es' ≡ length es
    pub names : (g : TopicName c.max_topic_name_length) → any (named g) es' ≡ any (named g) es
    pub pairs :
        (g : TopicName c.max_topic_name_length) (j : ℕ)
        → listed es' g j ≡ (listed es g j && not (i == j))

  remove_from_all_lem :
      {E : Type 0} (i : ℕ) (es : List (TopicEntry c))
      → EntriesValid es
      → (es' : List (TopicEntry c)) × (n : ℕ) × (remove_from_all {E = E} i es ≡ done es' n)
        × Without i es es'
  unfolding remove_from_all
  remove_from_all_lem i [] v =
      ([], 0, refl, record { valid = tt; len = refl; names = λ g. refl; pairs = λ g j. refl })
  remove_from_all_lem {E} i (e ∷ es) (ok_e, fresh, v) =
      let (e', m, ok_e', name, has) = remove_subscriber_lem {E = E} e i ok_e in
      let (es', n, m', h) = remove_from_all_lem {E = E} i es v in
      let same : (g : TopicName c.max_topic_name_length) → named g e' ≡ named g e =
        λ g. ap (λ t. str_eq t g) name in
      (
        e' ∷ es',
        (if contains i (as_slice e.subscribers) then suc n else n),
        rw (remove_from_all, m, m') refl,
        record {
          valid = (
            ok_e',
            subst (λ t. any (named t) es' ≡ false) (sym name) (h.names e.topic_name ∙ fresh),
            h.valid,
          );
          len = ap suc h.len;
          names = λ g. rw (same g, h.names g) refl;
          pairs = λ g j. rw (same g) (elim (Bool-cases (named g e)) [
            | inl here ↦ rw here (has j)
            | inr elsewhere ↦ rw elsewhere (h.pairs g j)
          ]);
        },
      )

  -- The entries that `retain` keeps.
  abbrev in_use : TopicEntry c → Bool
  in_use e = not (is_empty e)

  any-select :
      (g : TopicName c.max_topic_name_length) (es : List (TopicEntry c))
      → any (named g) es ≡ false
      → any (named g) (select in_use es) ≡ false
  any-select g [] h = refl
  any-select g (e ∷ es) h = ground (arith, any-select g es)

  select-EntriesValid :
      (es : List (TopicEntry c)) → EntriesValid es → EntriesValid (select in_use es)
  select-EntriesValid [] v = tt
  select-EntriesValid (e ∷ es) (ok_e, fresh, v) = elim (Bool-cases (in_use e)) [
    | inl keep ↦ rw keep (ok_e, any-select e.topic_name es fresh, select-EntriesValid es v)
    | inr gone ↦ rw gone (select-EntriesValid es v)
  ]

  pub absent-listed :
      (g : TopicName c.max_topic_name_length) (j : ℕ) (es : List (TopicEntry c))
      → any (named g) es ≡ false
      → listed es g j ≡ false
  absent-listed g j [] h = refl
  absent-listed g j (e ∷ es) h = elim (Bool-cases (named g e)) [
    | inl here ↦ cc (rw here at h)
    | inr elsewhere ↦ rw elsewhere (absent-listed g j es (rw elsewhere at h))
  ]

  no_subscribers : (e : TopicEntry c) → in_use e ≡ false → as_slice e.subscribers ≡ []
  unfolding is_empty
  no_subscribers e h = is_empty_lem e.subscribers (ground arith)

  listed-select :
      (es : List (TopicEntry c)) (g : TopicName c.max_topic_name_length) (j : ℕ)
      → EntriesValid es
      → listed (select in_use es) g j ≡ listed es g j
  listed-select [] g j v = refl
  listed-select (e ∷ es) g j (ok_e, fresh, v) = elim (Bool-cases (in_use e)) [
    | inl keep ↦ rw keep (elim (Bool-cases (named g e)) [
      | inl here ↦ rw here refl
      | inr elsewhere ↦ rw elsewhere (listed-select es g j v)
    ])
    | inr gone ↦ rw gone (elim (Bool-cases (named g e)) [
      | inl here ↦
          let fresh_g : any (named g) es ≡ false =
            subst (λ t. any (named t) es ≡ false) ((str_eq_iff e.topic_name g).0 here) fresh in
          rw here (
            absent-listed g j (select in_use es) (any-select g es fresh_g)
            ∙ sym (ap (contains j) (no_subscribers e gone)))
      | inr elsewhere ↦ rw elsewhere (listed-select es g j v)
    ])
  ]

  -- On a valid topic registry, unregister_all does not panic and leaves a valid registry in
  -- which the session is subscribed to nothing and every other subscription is as it was.
  pub unregister_all_lem :
      {E : Type 0} (r : TopicRegistry c) (i : ℕ)
      → IsValid r
      → (r' : TopicRegistry c) × (n : ℕ) × (unregister_all {E = E} r i ≡ done r' n)
        × IsValid r'
        × ((g : TopicName c.max_topic_name_length) (j : ℕ)
            → subscribed r' g j ≡ (subscribed r g j && not (i == j)))
  unfolding unregister_all
  unregister_all_lem {E} r i v =
      let (es', n, m, h) = remove_from_all_lem {E = E} i (as_slice r.topics) v.entries in
      let written = Heapless.write_slice r.topics es' in
      let (ok_w, now) =
        write_slice_lem r.topics es' v.vec (h.len ∙ length-as_slice r.topics v.vec) in
      let (ok_k, kept) = retain_lem in_use written ok_w in
      let all : as_slice (Heapless.retain in_use written) ≡ select in_use es' =
        kept ∙ ap (select in_use) now in
      (
        record r { topics = Heapless.retain in_use written },
        n,
        rw (unregister_all, m) refl,
        record { vec = ok_k; entries = rw all (select-EntriesValid es' h.valid); small = v.small },
        λ g j. rw all (listed-select es' g j h.valid ∙ h.pairs g j),
      )
