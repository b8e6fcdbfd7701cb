-- ===== src/Session/Registry/Removal.antt =====
-- Removing a session from the registry.
use picobroker.Base.{
  ℕ, zero, suc, ◌<◌, ◌≡◌, refl, ◌∙◌, subst, Bool, true, false, Option, none, some, List, [], ◌∷◌,
  arith, ◌==◌, ==→eq, if◌then◌else◌, any, position, position-lt, erase_at, Bool-cases, Option-cases,
  inl, inr,
}
use picobroker.Base.Result.{done}
use picobroker.Config.{Config}
use picobroker.Heapless.{as_slice}
use picobroker.Heapless.Laws.{remove_lem, length-as_slice}
use picobroker.Session.{Session}
use picobroker.Session.Registry.{SessionRegistry, has_id, find_session, remove_session}
use picobroker.Session.Registry.Slots.{SlotsValid, lookup}
use picobroker.Session.Registry.Laws.{IsValid}

module _ {c : Config} where
  any-erase_at :
      (k p : ℕ) (xs : List (Option (Session c)))
      → any (has_id k) xs ≡ false
      → any (has_id k) (erase_at p xs) ≡ false
  any-erase_at k p [] h = h
  any-erase_at k zero (x ∷ xs) h = ground arith
  any-erase_at k (suc p) (x ∷ xs) h = ground (arith, any-erase_at k p xs)

  erase_at-SlotsValid :
      (p : ℕ) (xs : List (Option (Session c))) → SlotsValid xs → SlotsValid (erase_at p xs)
  erase_at-SlotsValid p [] v = tt
  erase_at-SlotsValid p (none ∷ xs) v = absurd v
  erase_at-SlotsValid zero (some t ∷ xs) (a, b, d) = d
  erase_at-SlotsValid (suc p) (some t ∷ xs) (a, b, d) =
      (a, any-erase_at t.session_id p xs b, erase_at-SlotsValid p xs d)

  pub lookup-absent :
      (j : ℕ) (xs : List (Option (Session c))) → any (has_id j) xs ≡ false → lookup j xs ≡ none
  lookup-absent j [] h = refl
  lookup-absent j (none ∷ xs) h = lookup-absent j xs h
  lookup-absent j (some t ∷ xs) h = ground (arith, lookup-absent j xs)

  position-absent :
      (i : ℕ) (xs : List (Option (Session c)))
      → position (has_id i) xs ≡ none
      → any (has_id i) xs ≡ false
  position-absent i [] h = refl
  position-absent i (none ∷ xs) h = ground (arith, position-absent i xs)
  position-absent i (some t ∷ xs) h = ground (arith, position-absent i xs)

  lookup-erase_at :
      (i p j : ℕ) (xs : List (Option (Session c)))
      → SlotsValid xs
      → position (has_id i) xs ≡ some p
      → lookup j (erase_at p xs) ≡ (if i == j then none else lookup j xs)
  lookup-erase_at i p j [] v h = cc
  lookup-erase_at i p j (none ∷ xs) v h = absurd v
  lookup-erase_at i zero j (some t ∷ xs) (a, b, d) h = elim (Bool-cases (i == j)) [
    | inl same ↦
        let t_is : (t.session_id == i) ≡ true = ground arith in
        let id : t.session_id ≡ j = ==→eq t.session_id i t_is ∙ ==→eq i j same in
        rw same (lookup-absent j xs (subst (λ k. any (has_id k) xs ≡ false) id b))
    | inr differ ↦
        let t_is : (t.session_id == i) ≡ true = ground arith in
        let other : (t.session_id == j) ≡ false = ground arith in rw (differ, other) refl
  ]
  lookup-erase_at i (suc p) j (some t ∷ xs) (a, b, d) h =
      let t_is : (t.session_id == i) ≡ false = ground arith in
      let later : position (has_id i) xs ≡ some p = ground arith in
      let rest = lookup-erase_at i p j xs d later in
      elim (Bool-cases (t.session_id == j)) [
        | inl here ↦ let other : (i == j) ≡ false = ground arith in rw (here, other) refl
        | inr elsewhere ↦ rw elsewhere rest
      ]

  absent_already :
      (i j : ℕ) (xs : List (Option (Session c)))
      → any (has_id i) xs ≡ false
      → lookup j xs ≡ (if i == j then none else lookup j xs)
  absent_already i j xs h = elim (Bool-cases (i == j)) [
    | inl same ↦
        rw same (lookup-absent j xs (subst (λ k. any (has_id k) xs ≡ false) (==→eq i j same) h))
    | inr differ ↦ rw differ refl
  ]

  pub remove_session_lem :
      {E : Type 0} (r : SessionRegistry c) (i : ℕ)
      → IsValid r
      → (r' : SessionRegistry c) × (was : Bool) × (remove_session {E = E} r i ≡ done r' was)
        × IsValid r'
        × ((j : ℕ) → find_session r' j ≡ (if i == j then none else find_session r j))
  unfolding remove_session find_session
  remove_session_lem {E} r i v = elim (Option-cases (position (has_id i) (as_slice r.sessions))) [
    | inl absent ↦ (
      r,
      false,
      rw (remove_session, absent) refl,
      v,
      λ j.
          absent_already i j (as_slice r.sessions) (position-absent i (as_slice r.sessions) absent),
    )
    | inr (p, there) ↦
        let lt : p < r.sessions.length = omega (
          arith,
          position-lt (has_id i) (as_slice r.sessions) p there,
          length-as_slice r.sessions v.vec,
        ) in
        let (w, m, ok_w, app) = remove_lem {E = E} r.sessions p v.vec lt in
        (
          record r { sessions = w },
          true,
          rw (remove_session, there, m) refl,
          record {
            vec = ok_w;
            slots = rw app (erase_at-SlotsValid p (as_slice r.sessions) v.slots);
          },
          λ j. rw app (lookup-erase_at i p j (as_slice r.sessions) v.slots there),
        )
  ]
