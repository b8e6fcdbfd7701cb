-- ===== src/Heapless/Laws.antt =====
-- What each operation of the vector does to `as_slice`, on vectors that are valid.
use picobroker.Base.{
  true, ℕ, suc, ◌+◌, ◌-◌, ◌≤◌, ◌<◌, ◌≡◌, refl, sym, ap, ◌∙◌, Bool, false, Option, none, some, List,
  [], ◌∷◌, ◌++◌, arith, inl, inr, ◌⊎◌, length, get_elem?, set, take, drop, select, erase_at,
  modify_first, length-set, length-take, length-append, length-drop, length-replicate,
  length-modify_first, ltb, leb, ◌==◌, ltb→lt, overwrite, ◌%◌, tests, ==→eq, Bool-cases, subst,
  gt→leb, take-append-drop, take-append,
}
use native.Mathlib.Numerals.{add-one}
use picobroker.Base.Result.{Step, done, fail}
use picobroker.Heapless.{
  HeaplessVec, PushError, push_error, IsValid, u16_mod, new, push, pop, as_slice, extend_from_slice,
  retain, retain_loop, remove, shift_loop, dequeue_front, modify, write_slice, is_empty,
}
use picobroker.Heapless.Slots.{
  take-set, take-set_above, take-overwrite, length-overwrite, take-shift_loop, length-shift_loop,
  take-retain_loop, get_elem?-some, take_next,
}

gt→leb-false : (a b : ℕ) → leb a b ≡ false → b < a
gt→leb-false a b h = ground arith

ge_of_ltb-false : (a b : ℕ) → ltb a b ≡ false → b ≤ a
ge_of_ltb-false a b h = ground arith

pos_of_ne : (n : ℕ) → (n == 0) ≡ false → 0 < n
pos_of_ne n h = ground arith

module _ {T : Type 0} {N : ℕ} where
  pub length-as_slice : (v : HeaplessVec T N) → IsValid v → length (as_slice v) ≡ v.length
  unfolding as_slice
  length-as_slice v h = omega (arith, length-take v.length v.slots)

  pub new_lem : (d : T) → N < u16_mod → IsValid (new {N = N} d) × (as_slice (new {N = N} d) ≡ [])
  unfolding new as_slice
  new_lem d h = (record { array = length-replicate N d; within = omega arith; fits = h }, refl)

  -- What `push` does: a vector that has room gets the item at its end, a full one is unchanged.
  abbrev pub Pushes : HeaplessVec T N → T → Step (HeaplessVec T N) PushError (Unit {0}) → Type 0
  Pushes v x r =
      ((w : HeaplessVec T N) × (r ≡ done w tt)
        × IsValid w
        × (v.length < N)
        × (as_slice w ≡ as_slice v ++ x ∷ []))
      ⊎ ((r ≡ fail v push_error) × (v.length ≡ N))

  -- On a valid vector, push does not panic: if there is room it puts the item at the end and
  -- leaves the vector valid, and if the vector is full it returns an error and changes nothing.
  pub push-Pushes : (v : HeaplessVec T N) (x : T) → IsValid v → Pushes v x (push v x)
  unfolding push as_slice
  push-Pushes v x h = elim (Bool-cases (leb N v.length)) [
    | inl is_full ↦ inr (rw is_full, omega (tests, h))
    | inr room ↦
        let lt : v.length < N = gt→leb-false N v.length room in
        let small : leb u16_mod (v.length + 1) ≡ false = gt→leb _ _ (omega arith) in
        let l = length-set v.slots v.length x in
        inl (
          record { length = v.length + 1; slots = set v.slots v.length x },
          rw (room, small),
          record { array = l ∙ h.array; within = omega arith; fits = h.fits },
          lt,
          rw (add-one v.length) (take-set v.length v.slots x (omega arith)),
        )
  ]

  pub modify_lem :
      (f : T → Bool) (g : T → T) (v : HeaplessVec T N)
      → IsValid v
      → IsValid (modify f g v) × (as_slice (modify f g v) ≡ modify_first f g (as_slice v))
  unfolding modify as_slice
  modify_lem f g v h =
      let live = take v.length v.slots in
      let changed = modify_first f g live in
      let n : length changed ≡ v.length =
        omega (arith, length-modify_first f g live, length-take v.length v.slots) in
      (
        record {
          array =
              omega (
                arith,
                length-append changed (drop v.length v.slots),
                length-drop v.length v.slots,
              );
          within = h.within;
          fits = h.fits;
        },
        subst (λ k. take k (changed ++ drop v.length v.slots) ≡ changed) n
            (take-append changed (drop v.length v.slots)),
      )

  -- On a valid vector and an index in use, remove does not panic and leaves a valid vector
  -- without the element at that index, the others in order.
  pub remove_lem :
      {E : Type 0} (v : HeaplessVec T N) (i : ℕ)
      → IsValid v
      → i < v.length
      → (w : HeaplessVec T N) × (remove {E = E} v i ≡ done w tt)
        × IsValid w
        × (as_slice w ≡ erase_at i (as_slice v))
  unfolding remove as_slice
  remove_lem v i h lt =
      let n = v.length - 1 in
      let l = length-shift_loop (n - i) i v.slots in
      let e : suc n ≡ v.length = omega arith in
      (
        record { length = n; slots = shift_loop (n - i) i v.slots },
        rw (gt→leb v.length i lt),
        record { array = l ∙ h.array; within = omega arith; fits = h.fits },
        take-shift_loop i n v.slots (omega arith) (omega arith)
            ∙ ap (λ k. erase_at i (take k v.slots)) e,
      )

  -- `dequeue_front` gives nothing of an empty vector, and else takes the first element off.
  abbrev pub Dequeues : HeaplessVec T N → HeaplessVec T N × Option T → Type 0
  Dequeues v r =
      ((r ≡ (v, none)) × (as_slice v ≡ []))
      ⊎ ((w : HeaplessVec T N) × (x : T) × (r ≡ (w, some x))
          × IsValid w
          × (as_slice v ≡ x ∷ as_slice w))

  -- On a valid vector, dequeue_front gives none and changes nothing if it is empty, and else
  -- takes the first element off, keeps the others in order and leaves the vector valid.
  pub dequeue_front-Dequeues : (v : HeaplessVec T N) → IsValid v → Dequeues v (dequeue_front v)
  unfolding dequeue_front as_slice
  dequeue_front-Dequeues v h = elim (Bool-cases (v.length == 0)) [
    | inl empty ↦ inl (rw empty, rw (==→eq v.length 0 empty))
    | inr some_left ↦
        let pos : 0 < v.length = pos_of_ne v.length some_left in
        let n = v.length - 1 in
        let e : suc n ≡ v.length = omega arith in
        let (x, here) = get_elem?-some 0 v.slots (omega arith) in
        let rest = shift_loop (n - 0) 0 v.slots in
        let z : n - 0 ≡ n = omega arith in
        inr (
          record { length = n; slots = shift_loop n 0 v.slots },
          x,
          rw (some_left, here),
          record {
            array = length-shift_loop n 0 v.slots ∙ h.array;
            within = omega arith;
            fits = h.fits;
          },
          first n x v.slots here e
              (rw z at (take-shift_loop 0 n v.slots (omega arith) (omega arith))),
        )
  ]
    where
      first :
          (n : ℕ) (x : T) (xs : List T)
          → get_elem? xs 0 ≡ some x
          → suc n ≡ v.length
          → take n (shift_loop n 0 xs) ≡ erase_at 0 (take (suc n) xs)
          → take v.length xs ≡ x ∷ take n (shift_loop n 0 xs)
      first n x [] here e s = cc
      first n x (y ∷ xs) here e s = rw (← e, s) (ap (λ t. t ∷ take n xs) (ground arith))

  -- On a valid vector, the compaction in place of retain leaves a valid vector whose elements
  -- are those of before that pass the test, in order.
  pub retain_lem :
      (f : T → Bool) (v : HeaplessVec T N)
      → IsValid v
      → IsValid (retain f v) × (as_slice (retain f v) ≡ select f (as_slice v))
  unfolding retain as_slice
  retain_lem f v h =
      let live = take v.length v.slots in
      let n : length live ≡ v.length = omega (arith, length-take v.length v.slots) in
      let (kept, same, short) =
        take-retain_loop f live (drop v.length v.slots) 0 0 v.slots (omega arith)
          (sym (take-append-drop v.length v.slots)) in
      let r = retain_loop f (length live) 0 0 v.slots in
      let m : r.0 % u16_mod ≡ r.0 = omega arith in
      subst
        (λ k.
          IsValid (record v {
            length = (retain_loop f k 0 0 v.slots).0 % u16_mod;
            slots = (retain_loop f k 0 0 v.slots).1;
          })
          × (take ((retain_loop f k 0 0 v.slots).0 % u16_mod) (retain_loop f k 0 0 v.slots).1
              ≡ select f live))
        n
        (
          record { array = same ∙ h.array; within = omega arith; fits = h.fits },
          ap (λ k. take k r.1) m ∙ kept,
        )

  pub extend_from_slice_lem :
      (v : HeaplessVec T N) (xs : List T)
      → IsValid v
      → ((w : HeaplessVec T N) × (extend_from_slice v xs ≡ done w tt)
          × IsValid w
          × (v.length + length xs ≤ N)
          × (as_slice w ≡ as_slice v ++ xs))
        ⊎ ((extend_from_slice v xs ≡ fail v push_error) × (N < v.length + length xs))
  unfolding extend_from_slice as_slice
  extend_from_slice_lem v xs h = elim (Bool-cases (ltb N (v.length + length xs))) [
    | inl over ↦ inr (rw over, ltb→lt _ _ over)
    | inr room ↦
        let fit : v.length + length xs ≤ N = ge_of_ltb-false _ _ room in
        let m : length xs % u16_mod ≡ length xs = omega arith in
        let small : leb u16_mod (v.length + length xs % u16_mod) ≡ false =
          gt→leb _ _ (omega arith) in
        inl (
          record { length = v.length + length xs % u16_mod; slots = overwrite v.slots v.length xs },
          rw (room, small),
          record {
            array = length-overwrite v.slots v.length xs ∙ h.array;
            within = omega arith;
            fits = h.fits;
          },
          fit,
          rw m (take-overwrite v.slots v.length xs (omega arith)),
        )
  ]

  -- `pop` takes the last element off, and gives nothing of an empty vector.
  pub pop_lem :
      (d : T) (v : HeaplessVec T N)
      → IsValid v
      → ((pop d v ≡ (v, none)) × (as_slice v ≡ []))
        ⊎ ((w : HeaplessVec T N) × (x : T) × (pop d v ≡ (w, some x))
            × IsValid w
            × (as_slice v ≡ as_slice w ++ x ∷ []))
  unfolding pop as_slice
  pop_lem d v h = elim (Bool-cases (v.length == 0)) [
    | inl empty ↦ inl (rw empty, rw (==→eq v.length 0 empty))
    | inr some_left ↦
        let pos : 0 < v.length = pos_of_ne v.length some_left in
        let n = v.length - 1 in
        let e : v.length ≡ suc n = omega arith in
        let (x, here) = get_elem?-some n v.slots (omega arith) in
        inr (
          record { length = n; slots = set v.slots n d },
          x,
          rw (some_left, here),
          record { array = length-set v.slots n d ∙ h.array; within = omega arith; fits = h.fits },
          ap (λ k. take k v.slots) e
              ∙ take_next n v.slots x here
              ∙ ap (λ t. t ++ x ∷ []) (sym (take-set_above n n v.slots d (omega arith))),
        )
  ]

  pub write_slice_lem :
      (v : HeaplessVec T N) (items : List T)
      → IsValid v
      → length items ≡ v.length
      → IsValid (write_slice v items) × (as_slice (write_slice v items) ≡ items)
  unfolding write_slice as_slice
  write_slice_lem v items h e = (
    record {
      array =
          omega (arith, length-append items (drop v.length v.slots), length-drop v.length v.slots);
      within = h.within;
      fits = h.fits;
    },
    subst (λ k. take k (items ++ drop v.length v.slots) ≡ items) e
        (take-append items (drop v.length v.slots)),
  )

  pub is_empty_lem : (v : HeaplessVec T N) → is_empty v ≡ true → as_slice v ≡ []
  unfolding is_empty as_slice
  is_empty_lem v h = rw (==→eq v.length 0 h)
