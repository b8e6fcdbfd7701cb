-- ===== src/Session/Registry/Listing.antt =====
-- The lists of sessions that the registry gives: each has all of its sessions, and no other.
use picobroker.Base.{
  ℕ, zero, suc, ◌≤◌, ◌≡◌, refl, sym, ap, ◌∙◌, subst, Bool, true, false, Option, none, some, List,
  [], ◌∷◌, ◌++◌, arith, ltb, lt→ltb, ◌==◌, ==→eq, any, length, length-append, set-append, replicate,
  append_assoc, append-nil, Bool-cases, inl, inr, select, length-select,
}
use picobroker.Config.{Config}
use picobroker.Heapless.{as_slice}
use picobroker.Heapless.Laws.{length-as_slice}
use picobroker.Session.{Session, is_expired, is_disconnected, expiration_info}
use picobroker.Session.Registry.{
  SessionRegistry, ids_of_infos, somes, store_all, has_id, ids_of, live_sessions, find_session,
  get_all_sessions, expirations_of, get_expired_sessions, get_disconnected_sessions,
}
use picobroker.Session.Registry.Slots.{SlotsValid, lookup}
use picobroker.Session.Registry.Removal.{lookup-absent}
use picobroker.Session.Registry.Laws.{IsValid}
use picobroker.Topics.{contains}

module _ {A : Type 0} where
  abbrev filled : List A → List (Option A)
  filled [] = []
  filled (x ∷ xs) = some x ∷ filled xs

  somes-filled : (xs : List A) (n : ℕ) → somes (filled xs ++ replicate n none) ≡ xs
  somes-filled [] zero = refl
  somes-filled [] (suc n) = somes-filled [] n
  somes-filled (x ∷ xs) n = ap (◌∷◌ x) (somes-filled xs n)

  filled-append :
      (xs : List A) (x : A) (r : List (Option A))
      → filled (xs ++ x ∷ []) ++ r ≡ filled xs ++ some x ∷ r
  filled-append [] x r = refl
  filled-append (y ∷ xs) x r = ap (◌∷◌ (some y)) (filled-append xs x r)

  length-filled : (xs : List A) → length (filled xs) ≡ length xs
  length-filled [] = refl
  length-filled (x ∷ xs) = ap suc (length-filled xs)

  next_length :
      (front : List A) (x : A) → length (filled (front ++ x ∷ [])) ≡ suc (length (filled front))
  next_length [] x = refl
  next_length (y ∷ ys) x = ap suc (next_length ys x)

  store_all_next :
      (xs front : List A) (n : ℕ)
      → length xs ≤ n
      → somes (store_all xs (length (filled front)) (filled front ++ replicate n none))
        ≡ front ++ xs
  unfolding store_all
  store_all_next [] front n h = somes-filled front n ∙ sym (append-nil front)
  store_all_next (x ∷ xs) front zero h = absurd (omega arith)
  store_all_next (x ∷ xs) front (suc n) h =
      let slots = filled front ++ none ∷ replicate n none in
      let room : ltb (length (filled front)) (length slots) ≡ true =
        lt→ltb _ _ (omega (arith, length-append (filled front) (none ∷ replicate n none))) in
      rw (room, set-append (filled front) (replicate n none) none (some x))
        (subst
          (λ k.
            somes (store_all xs k (filled front ++ some x ∷ replicate n none)) ≡ front ++ x ∷ xs)
          (next_length front x)
          (subst (λ k. somes (store_all xs (length (filled (front ++ x ∷ []))) k) ≡ front ++ x ∷ xs)
            (filled-append front x (replicate n none))
            (store_all_next xs (front ++ x ∷ []) n (omega arith) ∙ append_assoc front (x ∷ []) xs)))

  -- An array with room for all items holds them all, in order.
  pub somes-store_all :
      (xs : List A) (n : ℕ) → length xs ≤ n → somes (store_all xs 0 (replicate n none)) ≡ xs
  somes-store_all xs n h = store_all_next xs [] n h

  length-somes : (os : List (Option A)) → length (somes os) ≤ length os
  length-somes [] = omega arith
  length-somes (none ∷ os) = omega (arith, length-somes os)
  length-somes (some x ∷ os) = omega (arith, length-somes os)

module _ {c : Config} where
  length-ids_of : (ss : List (Session c)) → length (ids_of ss) ≡ length ss
  length-ids_of [] = refl
  length-ids_of (s ∷ ss) = ap suc (length-ids_of ss)

  pub length-live_ids :
      (r : SessionRegistry c) → IsValid r → length (ids_of (live_sessions r)) ≤ c.max_sessions
  length-live_ids r v = omega (
    arith,
    length-ids_of (live_sessions r),
    length-somes (as_slice r.sessions),
    length-as_slice r.sessions v.vec,
    v.vec.within,
  )

  pub get_all_sessions_lem :
      (r : SessionRegistry c) → IsValid r → somes (get_all_sessions r) ≡ ids_of (live_sessions r)
  unfolding get_all_sessions
  get_all_sessions_lem r v =
      somes-store_all (ids_of (live_sessions r)) c.max_sessions (length-live_ids r v)

  lookup-ids :
      (i : ℕ) (xs : List (Option (Session c))) (s : Session c)
      → lookup i xs ≡ some s
      → contains i (ids_of (somes xs)) ≡ true
  lookup-ids i [] s h = cc
  lookup-ids i (none ∷ xs) s h = lookup-ids i xs s h
  lookup-ids i (some t ∷ xs) s h = ground (arith, lookup-ids i xs s)

  pub find_session-listed :
      (r : SessionRegistry c) (i : ℕ) {s : Session c}
      → find_session r i ≡ some s
      → contains i (ids_of (live_sessions r)) ≡ true
  unfolding find_session
  find_session-listed r i {s} h = lookup-ids i (as_slice r.sessions) s h

  -- The test on a session that may be missing.
  abbrev pub holds : (Session c → Bool) → Option (Session c) → Bool
  holds f none = false
  holds f (some s) = f s

  contains-selected :
      (f : Session c → Bool) (j : ℕ) (xs : List (Option (Session c)))
      → SlotsValid xs
      → contains j (ids_of (select f (somes xs))) ≡ holds f (lookup j xs)
  contains-selected f j [] h = refl
  contains-selected f j (none ∷ xs) h = absurd h
  contains-selected f j (some s ∷ xs) (_, alone, h) =
      let rest = contains-selected f j xs h in
      elim (Bool-cases (s.session_id == j)) [
        | inl hit ↦
            let gone : lookup j xs ≡ none =
              lookup-absent j xs (subst (λ k. any (has_id k) xs ≡ false) (==→eq _ _ hit) alone) in
            elim (Bool-cases (f s)) [
              | inl on ↦ rw (on, hit) (sym on)
              | inr off ↦ rw (off, hit) (rest ∙ rw gone (sym off))
            ]
        | inr miss ↦ elim (Bool-cases (f s)) [
          | inl on ↦ rw (on, miss) rest
          | inr off ↦ rw (off, miss) rest
        ]
      ]

  length-selected :
      (f : Session c → Bool) (r : SessionRegistry c)
      → IsValid r
      → length (ids_of (select f (live_sessions r))) ≤ c.max_sessions
  length-selected f r v = omega (
    arith,
    length-ids_of (select f (live_sessions r)),
    length-select f (live_sessions r),
    length-ids_of (live_sessions r),
    length-live_ids r v,
  )

  pub get_disconnected_sessions_lem :
      (r : SessionRegistry c) (j : ℕ)
      → IsValid r
      → contains j (somes (get_disconnected_sessions r))
        ≡ holds (λ s. is_disconnected s.state) (find_session r j)
  unfolding get_disconnected_sessions find_session
  get_disconnected_sessions_lem r j v =
      ap (contains j) (
        somes-store_all (ids_of (select (λ s. is_disconnected s.state) (live_sessions r)))
          c.max_sessions (length-selected (λ s. is_disconnected s.state) r v))
      ∙ contains-selected (λ s. is_disconnected s.state) j (as_slice r.sessions) v.slots

  abbrev pub expired_at : ℕ → Session c → Bool
  expired_at t s = is_expired (expiration_info s t)

  infos-ids :
      (t : ℕ) (ss : List (Session c))
      → ids_of_infos (select is_expired (expirations_of t ss)) ≡ ids_of (select (expired_at t) ss)
  unfolding expiration_info
  infos-ids t [] = refl
  infos-ids t (s ∷ ss) = elim (Bool-cases (expired_at t s)) [
    | inl on ↦ rw on (ap (◌∷◌ s.session_id) (infos-ids t ss))
    | inr off ↦ rw off (infos-ids t ss)
  ]

  length-infos : (t : ℕ) (ss : List (Session c)) → length (expirations_of t ss) ≡ length ss
  length-infos t [] = refl
  length-infos t (s ∷ ss) = ap suc (length-infos t ss)

  pub get_expired_sessions_lem :
      (r : SessionRegistry c) (t j : ℕ)
      → IsValid r
      → contains j (ids_of_infos (somes (get_expired_sessions r t)))
        ≡ holds (expired_at t) (find_session r j)
  unfolding get_expired_sessions find_session
  get_expired_sessions_lem r t j v =
      let infos = expirations_of t (live_sessions r) in
      ap (λ is. contains j (ids_of_infos is))
        (somes-store_all (select is_expired infos) c.max_sessions (
          omega (
            arith,
            length-select is_expired infos,
            length-infos t (live_sessions r),
            length-ids_of (live_sessions r),
            length-live_ids r v,
          )))
      ∙ ap (contains j) (infos-ids t (live_sessions r))
      ∙ contains-selected (expired_at t) j (as_slice r.sessions) v.slots
