-- ===== src/Heapless/Slots.antt =====
-- The loops over the array of a vector, as operations on lists.
use picobroker.Base.{
  ℕ, zero, suc, ◌+◌, ◌-◌, ◌≤◌, ◌<◌, ◌≡◌, refl, sym, ap, ◌∙◌, Bool, true, false, some, List, [], ◌∷◌,
  ◌++◌, arith, ◌==◌, ==→eq, Bool-cases, Option-cases, inl, inr, length, get_elem?, set, take, drop,
  select, erase_at, overwrite, length-set, append_assoc, append-nil,
}
use picobroker.Heapless.{retain_loop, shift_loop}

module _ {T : Type 0} where
  pub take-set :
      (n : ℕ) (xs : List T) (y : T)
      → n < length xs
      → take (suc n) (set xs n y) ≡ take n xs ++ y ∷ []
  take-set n [] y h = elim h [ ]
  take-set zero (x ∷ xs) y h = refl
  take-set (suc n) (x ∷ xs) y h = ap (◌∷◌ x) (take-set n xs y (omega arith))

  pub take-set_above : (n m : ℕ) (xs : List T) (y : T) → n ≤ m → take n (set xs m y) ≡ take n xs
  take-set_above zero m xs y h = refl
  take-set_above (suc n) m [] y h = refl
  take-set_above (suc n) zero (x ∷ xs) y h = elim h [ ]
  take-set_above (suc n) (suc m) (x ∷ xs) y h = ap (◌∷◌ x) (take-set_above n m xs y (omega arith))

  pub drop-set : (n m : ℕ) (xs : List T) (y : T) → m < n → drop n (set xs m y) ≡ drop n xs
  drop-set n m [] y h = refl
  drop-set zero m (x ∷ xs) y h = elim h [ ]
  drop-set (suc n) zero (x ∷ xs) y h = refl
  drop-set (suc n) (suc m) (x ∷ xs) y h = drop-set n m xs y (omega arith)

  pub set_same : (n : ℕ) (xs : List T) (y : T) → get_elem? xs n ≡ some y → set xs n y ≡ xs
  set_same n [] y e = refl
  set_same zero (x ∷ xs) y e = cc
  set_same (suc n) (x ∷ xs) y e = ap (◌∷◌ x) (set_same n xs y e)

  pub drop_next :
      (n : ℕ) (xs : List T) (y : T) (ys : List T)
      → drop n xs ≡ y ∷ ys
      → (get_elem? xs n ≡ some y) × (drop (suc n) xs ≡ ys) × (n < length xs)
  drop_next zero [] y ys e = cc
  drop_next (suc n) [] y ys e = cc
  drop_next zero (x ∷ xs) y ys e = (cc, cc, omega arith)
  drop_next (suc n) (x ∷ xs) y ys e = let (a, b, c) = drop_next n xs y ys e in (a, b, omega arith)

  pub take_next :
      (n : ℕ) (xs : List T) (y : T)
      → get_elem? xs n ≡ some y
      → take (suc n) xs ≡ take n xs ++ y ∷ []
  take_next n [] y e = cc
  take_next zero (x ∷ xs) y e = cc
  take_next (suc n) (x ∷ xs) y e = ap (◌∷◌ x) (take_next n xs y e)

  pub get_elem?-some : (n : ℕ) (xs : List T) → n < length xs → (y : T) × (get_elem? xs n ≡ some y)
  get_elem?-some n [] h = elim h [ ]
  get_elem?-some zero (x ∷ xs) h = (x, refl)
  get_elem?-some (suc n) (x ∷ xs) h = get_elem?-some n xs (omega arith)

  pub length-overwrite :
      (xs : List T) (n : ℕ) (ys : List T) → length (overwrite xs n ys) ≡ length xs
  length-overwrite xs n [] = refl
  length-overwrite xs n (y ∷ ys) = length-overwrite (set xs n y) (suc n) ys ∙ length-set xs n y

  pub take-overwrite :
      (xs : List T) (n : ℕ) (ys : List T)
      → n + length ys ≤ length xs
      → take (n + length ys) (overwrite xs n ys) ≡ take n xs ++ ys
  take-overwrite xs n [] h = let e : n + 0 ≡ n = omega arith in rw e (sym (append-nil (take n xs)))
  take-overwrite xs n (y ∷ ys) h =
      let e : n + suc (length ys) ≡ suc n + length ys = omega arith in
      let l : length (set xs n y) ≡ length xs = length-set xs n y in
      rw e (
        take-overwrite (set xs n y) (suc n) ys (omega arith)
        ∙ ap (λ t. t ++ ys) (take-set n xs y (omega arith))
        ∙ append_assoc (take n xs) (y ∷ []) ys)

  shift_loop-suc :
      (n i : ℕ) (x : T) (xs : List T) → shift_loop n (suc i) (x ∷ xs) ≡ x ∷ shift_loop n i xs
  unfolding shift_loop
  shift_loop-suc zero i x xs = refl
  shift_loop-suc (suc n) i x xs = elim (Option-cases (get_elem? xs (suc i))) [
    | inl e ↦ rw (e, shift_loop)
    | inr (y, e) ↦ rw (e, shift_loop) (shift_loop-suc n (suc i) x (set xs i y))
  ]

  shift_loop-zero :
      (n : ℕ) (x : T) (xs : List T) → n ≤ length xs → take n (shift_loop n 0 (x ∷ xs)) ≡ take n xs
  unfolding shift_loop
  shift_loop-zero zero x xs h = refl
  shift_loop-zero (suc n) x [] h = elim h [ ]
  shift_loop-zero (suc n) x (y ∷ xs) h =
      rw (shift_loop-suc n 0 y (y ∷ xs)) (ap (◌∷◌ y) (shift_loop-zero n y xs (omega arith)))

  -- The shifting loop drops one element.
  pub take-shift_loop :
      (i m : ℕ) (xs : List T)
      → i ≤ m
      → m < length xs
      → take m (shift_loop (m - i) i xs) ≡ erase_at i (take (suc m) xs)
  take-shift_loop i m [] h k = elim k [ ]
  take-shift_loop zero m (x ∷ xs) h k = rw (sub_zero m) (shift_loop-zero m x xs (omega arith))
    where
      sub_zero : (n : ℕ) → n - 0 ≡ n
      sub_zero n = omega arith
  take-shift_loop (suc i) zero (x ∷ xs) h k = elim h [ ]
  take-shift_loop (suc i) (suc m) (x ∷ xs) h k =
      let e : suc m - suc i ≡ m - i = omega arith in
      rw (e, shift_loop-suc (m - i) i x xs)
        (ap (◌∷◌ x) (take-shift_loop i m xs (omega arith) (omega arith)))

  pub length-shift_loop : (n i : ℕ) (xs : List T) → length (shift_loop n i xs) ≡ length xs
  unfolding shift_loop
  length-shift_loop zero i xs = refl
  length-shift_loop (suc n) i xs = elim (Option-cases (get_elem? xs (suc i))) [
    | inl e ↦ rw (e, shift_loop)
    | inr (y, e) ↦ rw (e, shift_loop) (length-shift_loop n (suc i) (set xs i y) ∙ length-set xs i y)
  ]

  -- A round on an element that passes: also where no copy is made, the slot holds it afterwards.
  retain_loop_keep :
      (f : T → Bool) (n r w : ℕ) (xs : List T) (x : T)
      → get_elem? xs r ≡ some x
      → f x ≡ true
      → retain_loop f (suc n) r w xs ≡ retain_loop f n (suc r) (suc w) (set xs w x)
  unfolding retain_loop
  retain_loop_keep f n r w xs x e p = elim (Bool-cases (w == r)) [
    | inl same ↦
        let same' : w ≡ r = ==→eq w r same in
        rw (e, p, same, retain_loop)
          (ap (retain_loop f n (suc r) (suc w)) (sym (set_same w xs x (rw same' e))))
    | inr other ↦ rw (e, p, other, retain_loop)
  ]

  retain_loop_drop :
      (f : T → Bool) (n r w : ℕ) (xs : List T) (x : T)
      → get_elem? xs r ≡ some x
      → f x ≡ false
      → retain_loop f (suc n) r w xs ≡ retain_loop f n (suc r) w xs
  unfolding retain_loop
  retain_loop_drop f n r w xs x e p = rw (e, p, retain_loop)

  -- The copying loop keeps what passes the test, after what was kept before.
  pub take-retain_loop :
      (f : T → Bool) (rest tail : List T) (r w : ℕ) (xs : List T)
      → w ≤ r
      → drop r xs ≡ rest ++ tail
      → let (w', xs') = retain_loop f (length rest) r w xs in
        (take w' xs' ≡ take w xs ++ select f rest)
        × (length xs' ≡ length xs)
        × (w' ≤ w + length rest)
  take-retain_loop f [] tail r w xs h e =
      unfold retain_loop in (sym (append-nil (take w xs)), refl, omega arith)
  take-retain_loop f (x ∷ rest) tail r w xs h e =
      let (here, next, inside) = drop_next r xs x (rest ++ tail) e in
      elim (Bool-cases (f x)) [
        | inr out ↦
            let (a, b, c) = take-retain_loop f rest tail (suc r) w xs (omega arith) next in
            rw (retain_loop_drop f (length rest) r w xs x here out, out) (a, b, omega arith)
        | inl keep ↦
            let ys = set xs w x in
            let (a, b, c) =
              take-retain_loop f rest tail (suc r) (suc w) ys (omega arith)
                (drop-set (suc r) w xs x (omega arith) ∙ next) in
            rw (retain_loop_keep f (length rest) r w xs x here keep, keep)
              (
                a
                    ∙ ap (λ t. t ++ select f rest) (take-set w xs x (omega arith))
                    ∙ append_assoc (take w xs) (x ∷ []) (select f rest),
                b ∙ length-set xs w x,
                omega arith,
              )
      ]
