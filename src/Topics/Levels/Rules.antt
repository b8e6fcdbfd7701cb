-- ===== src/Topics/Levels/Rules.antt =====
-- The rules of MQTT 3.1.1 for wildcards, and `topic_matches` against them.
use picobroker.Base.{
  ℕ, ◌≡◌, ◌≢◌, ◌↔◌, refl, ap, some, ◌⊎◌, inl, inr, Bool, true, false, List, [], ◌∷◌, arith,
  Bool-cases,
}
use picobroker.Text.{bytes_eq}
use picobroker.Text.Laws.{bytes_eq_iff}
use picobroker.Topics.Levels.{Level, hash_level, plus_level, topic_matches}
use picobroker.Topics.Levels.Split.{levels}
use picobroker.Topics.Levels.Matching.{
  match_levels, match_one, topic_matches_lem, match_levels_plain, match_levels_hash,
}

-- A "#" stands at the end only.
abbrev pub IsFilter : List Level → Type 0
IsFilter [] = Unit {0}
IsFilter (s ∷ []) = Unit {0}
IsFilter (s ∷ t ∷ ss) = (s ≢ hash_level) × IsFilter (t ∷ ss)

-- Published levels against the levels of a filter.
pub data Matches : List Level → List Level → Type 0 where
  ended : Matches [] []
  multi : {ps : List Level} {s : Level} → s ≡ hash_level → Matches ps (s ∷ [])
  single :
      {p s : Level} {ps ss : List Level}
      → s ≡ plus_level
      → Matches ps ss
      → Matches (p ∷ ps) (s ∷ ss)
  literal : {p s : Level} {ps ss : List Level} → p ≡ s → Matches ps ss → Matches (p ∷ ps) (s ∷ ss)

match_one_sound :
    (ps : List Level) (s : Level) (ss : List Level) (again : List Level → Bool)
    → ((xs : List Level) → again xs ≡ true → Matches xs ss)
    → match_one ps s again ≡ true
    → Matches ps (s ∷ ss)
match_one_sound [] s ss again ih h = cc
match_one_sound (p ∷ ps) s ss again ih h = elim (Bool-cases (bytes_eq s plus_level)) [
  | inl plus ↦ single ((bytes_eq_iff s plus_level).0 plus) (ih ps (rw plus at h))
  | inr other ↦ elim (Bool-cases (bytes_eq p s)) [
    | inl same ↦ literal ((bytes_eq_iff p s).0 same) (ih ps (rw (other, same) at h))
    | inr differ ↦ cc (rw (other, differ) at h)
  ]
]

match_one_complete :
    (p : Level) (ps : List Level) (s : Level) (again : List Level → Bool)
    → (bytes_eq s plus_level ≡ true) ⊎ (bytes_eq p s ≡ true)
    → again ps ≡ true
    → match_one (p ∷ ps) s again ≡ true
match_one_complete p ps s again h e = ground arith

not_hash : (s : Level) → s ≢ hash_level → bytes_eq s hash_level ≡ false
not_hash s h = elim (Bool-cases (bytes_eq s hash_level)) [
  | inl e ↦ absurd (h ((bytes_eq_iff s hash_level).0 e))
  | inr e ↦ e
]

match_levels_sound : (ps fs : List Level) → IsFilter fs → match_levels ps fs ≡ true → Matches ps fs
unfolding match_levels
match_levels_sound [] [] v h = ended
match_levels_sound (p ∷ ps) [] v h = cc
match_levels_sound ps (s ∷ []) v h = elim (Bool-cases (bytes_eq s hash_level)) [
  | inl hash ↦ multi ((bytes_eq_iff s hash_level).0 hash)
  | inr plain ↦
      match_one_sound ps s [] (λ xs. match_levels xs []) (λ xs. match_levels_sound xs [] tt)
        (rw plain at h)
]
match_levels_sound ps (s ∷ t ∷ ss) v h =
    match_one_sound ps s (t ∷ ss) (λ xs. match_levels xs (t ∷ ss))
      (λ xs. match_levels_sound xs (t ∷ ss) v.1) (rw (not_hash s v.0) at h)

IsFilter-tail : (s : Level) (ss : List Level) → IsFilter (s ∷ ss) → IsFilter ss
IsFilter-tail s [] v = tt
IsFilter-tail s (t ∷ ss) v = v.1

cons_complete :
    (p : Level) (ps : List Level) (s : Level) (ss : List Level)
    → IsFilter (s ∷ ss)
    → (bytes_eq s plus_level ≡ true) ⊎ (bytes_eq p s ≡ true)
    → match_levels ps ss ≡ true
    → match_levels (p ∷ ps) (s ∷ ss) ≡ true
cons_complete p ps s ss v h e = elim (Bool-cases (bytes_eq s hash_level)) [
  | inr plain ↦
      rw (match_levels_plain (p ∷ ps) s ss plain)
        (match_one_complete p ps s (λ xs. match_levels xs ss) h e)
  | inl hash ↦ final ss v hash
]
  where
    final :
        (us : List Level)
        → IsFilter (s ∷ us)
        → bytes_eq s hash_level ≡ true
        → match_levels (p ∷ ps) (s ∷ us) ≡ true
    final [] w hash = unfold match_levels in rw hash
    final (t ∷ us) w hash = absurd (w.0 ((bytes_eq_iff s hash_level).0 hash))

match_levels_complete :
    {ps fs : List Level} → Matches ps fs → IsFilter fs → match_levels ps fs ≡ true
match_levels_complete ended v = unfold match_levels in refl
match_levels_complete (multi {s} e) v = unfold match_levels in rw ((bytes_eq_iff s hash_level).1 e)
match_levels_complete (single {p} {s} {ps} {ss} e m) v =
    cons_complete p ps s ss v (inl ((bytes_eq_iff s plus_level).1 e))
      (match_levels_complete m (IsFilter-tail s ss v))
match_levels_complete (literal {p} {s} {ps} {ss} e m) v =
    cons_complete p ps s ss v (inr ((bytes_eq_iff p s).1 e))
      (match_levels_complete m (IsFilter-tail s ss v))

-- The topic begins with "$", and the first level of the filter is a wildcard.
abbrev pub IsHidden : List ℕ → List Level → Type 0
IsHidden (c ∷ cs) (s ∷ ss) = (c ≡ b'$') × ((s ≡ hash_level) ⊎ (s ≡ plus_level))
IsHidden _ _ = ⊥

-- What MQTT 3.1.1 asks for: section 4.7.1 on wildcards, and section 4.7.2 on topics that begin
-- with "$".
abbrev pub MqttMatches : List ℕ → List ℕ → Type 0
MqttMatches published filter =
    Matches (levels published) (levels filter) × ¬ IsHidden published (levels filter)

topic_matches-Matches :
    (published filter : List ℕ)
    → IsFilter (levels filter)
    → (topic_matches published filter ≡ some true) ↔ Matches (levels published) (levels filter)
topic_matches-Matches published filter v = rw topic_matches_lem (
  λ h. match_levels_sound (levels published) (levels filter) v (cc h),
  λ m. ap some (match_levels_complete m v),
)

-- If no level of the filter but the last is "#", and it is not the case that the topic begins
-- with "$" and the first level of the filter is a wildcard, topic_matches ends and answers true
-- exactly if the topic matches by the rules of MQTT 3.1.1 (MqttMatches): "#" at the end stands
-- for any levels, "+" for one level, and any other level for itself.
pub topic_matches_iff :
    (published filter : List ℕ)
    → IsFilter (levels filter)
    → ¬ IsHidden published (levels filter)
    → (topic_matches published filter ≡ some true) ↔ MqttMatches published filter
topic_matches_iff published filter v shown =
    let (sound, complete) = topic_matches-Matches published filter v in
    (λ h. (sound h, shown), λ m. complete m.0)

-- Where the topic begins with "$", the first level of the filter is a wildcard, no level of the
-- filter but the last is "#", and the levels match otherwise, topic_matches answers true, though
-- by MQTT 3.1.1 (4.7.2) the topic does not match (MqttMatches).
pub topic_matches_hidden :
    (published filter : List ℕ)
    → IsFilter (levels filter)
    → IsHidden published (levels filter)
    → Matches (levels published) (levels filter)
    → (topic_matches published filter ≡ some true) × ¬ MqttMatches published filter
topic_matches_hidden published filter v hidden m =
    ((topic_matches-Matches published filter v).1 m, λ k. k.1 hidden)

-- Where the first level of the published text is "#", the filter begins with "#", and another
-- level follows in the filter, topic_matches goes on behind that other level: it is skipped.
pub topic_matches_misplaced :
    (published filter : List ℕ) {ps ss : List Level} {t : Level}
    → levels published ≡ hash_level ∷ ps
    → levels filter ≡ hash_level ∷ t ∷ ss
    → topic_matches published filter ≡ some (match_levels ps ss)
unfolding bytes_eq
topic_matches_misplaced published filter {ps} {ss} {t} e f =
    rw (topic_matches_lem, e, f, match_levels_hash (hash_level ∷ ps) hash_level t ss refl) refl
