-- ===== src/Session/Registry/Slots.antt =====
-- The slots of the session registry as a list: lookup and replacement by session id.
use picobroker.Base.{
  ℕ, ◌≡◌, refl, sym, ap, ◌∙◌, subst, false, Option, none, some, List, [], ◌∷◌, arith, ◌==◌, ==→eq,
  if◌then◌else◌, find, any, modify_first, Bool-cases, inl, inr,
}
use mathlib.Core.Option.{some-injective}
use picobroker.Config.{Config}
use picobroker.Heapless
use picobroker.Heapless.{as_slice}
use picobroker.Session.{Session, flatten_option}
use picobroker.Session.Registry.{has_id}

-- Every item of a queue is a packet.
abbrev pub AllPackets : {A : Type 0} → List (Option A) → Type 0
AllPackets [] = Unit {0}
AllPackets (none ∷ os) = ⊥
AllPackets (some a ∷ os) = AllPackets os

pub record SessionIsValid {c : Config} (s : Session c) : Type 0 where
  pub rx : Heapless.IsValid s.rx_queue
  pub tx : Heapless.IsValid s.tx_queue
  pub rx_packets : AllPackets (as_slice s.rx_queue)
  pub tx_packets : AllPackets (as_slice s.tx_queue)

module _ {c : Config} where
  -- Every slot in use holds a valid session, and no two have one id.
  abbrev pub SlotsValid : List (Option (Session c)) → Type 0
  SlotsValid [] = Unit {0}
  SlotsValid (none ∷ os) = ⊥
  SlotsValid (some s ∷ os) =
      SessionIsValid s × (any (has_id s.session_id) os ≡ false) × SlotsValid os

  abbrev pub lookup : ℕ → List (Option (Session c)) → Option (Session c)
  lookup i xs = flatten_option (find (has_id i) xs)

  abbrev pub replace : ℕ → Session c → List (Option (Session c)) → List (Option (Session c))
  replace i s = modify_first (has_id i) (λ _. some s)

  any-replace :
      (i j : ℕ) (s : Session c) (xs : List (Option (Session c)))
      → s.session_id ≡ i
      → any (has_id j) (replace i s xs) ≡ any (has_id j) xs
  any-replace i j s [] e = refl
  any-replace i j s (none ∷ xs) e = any-replace i j s xs e
  any-replace i j s (some t ∷ xs) e = ground (arith, any-replace i j s xs e)

  pub replace-SlotsValid :
      (i : ℕ) (s : Session c) (xs : List (Option (Session c)))
      → s.session_id ≡ i
      → SessionIsValid s
      → SlotsValid xs
      → SlotsValid (replace i s xs)
  replace-SlotsValid i s [] e v h = tt
  replace-SlotsValid i s (none ∷ xs) e v h = h
  replace-SlotsValid i s (some t ∷ xs) e v (a, b, c') = elim (Bool-cases (t.session_id == i)) [
    | inl hit ↦
        let same : t.session_id ≡ s.session_id = ==→eq t.session_id i hit ∙ sym e in
        rw hit (v, subst (λ k. any (has_id k) xs ≡ false) same b, c')
    | inr miss ↦
        rw (miss, any-replace i t.session_id s xs e) (a, b, replace-SlotsValid i s xs e v c')
  ]

  pub lookup-replace :
      (i j : ℕ) (s old : Session c) (xs : List (Option (Session c)))
      → s.session_id ≡ i
      → lookup i xs ≡ some old
      → lookup j (replace i s xs) ≡ (if i == j then some s else lookup j xs)
  lookup-replace i j s old [] e f = cc
  lookup-replace i j s old (none ∷ xs) e f = lookup-replace i j s old xs e f
  lookup-replace i j s old (some t ∷ xs) e f = ground (arith, lookup-replace i j s old xs e)

  -- A session that is found is in order, and carries the id that was asked for.
  pub lookup_found :
      (i : ℕ) (s : Session c) (xs : List (Option (Session c)))
      → SlotsValid xs
      → lookup i xs ≡ some s
      → SessionIsValid s × (s.session_id ≡ i)
  lookup_found i s [] h e = cc
  lookup_found i s (none ∷ xs) h e = absurd h
  lookup_found i s (some t ∷ xs) (a, b, d) e = elim (Bool-cases (t.session_id == i)) [
    | inl hit ↦
        let same : some t ≡ some s = rw hit at e in
        let p : t ≡ s = some-injective t s same in
        (subst (λ u. SessionIsValid u) p a, ap (λ u. u.session_id) (sym p) ∙ ==→eq _ _ hit)
    | inr miss ↦ lookup_found i s xs d (rw miss at e)
  ]
