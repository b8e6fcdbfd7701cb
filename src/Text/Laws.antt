-- ===== src/Text/Laws.antt =====
-- The string's operations against the text that it holds.
use picobroker.Base.{
  ℕ, ◌+◌, ◌%◌, ◌≤◌, ◌<◌, ◌≡◌, ◌↔◌, ◌⊎◌, inl, inr, refl, ap, ◌∙◌, subst, Bool, true, false, ◌&&◌,
  List, [], ◌∷◌, ◌++◌, arith, ltb, leb, ==→eq, ==_self, if◌then◌else◌, length, take, replicate,
  overwrite, length-take, length-replicate, ltb→lt, ge→ltb, tests, Bool-cases, gt→leb,
}
use native.Mathlib.Nat.{zero-add}
use picobroker.Base.Result.{ok, err, done, fail}
use picobroker.Base.Utf8.{is_utf8}
use picobroker.Heapless.{push_error}
use picobroker.Heapless.Slots.{take-overwrite, length-overwrite}
use picobroker.Text.{HeaplessString, IsValid, u8_mod, bytes_eq, try_from, as_str, push_str, str_eq}

bytes_eq_sound : (xs ys : List ℕ) → bytes_eq xs ys ≡ true → xs ≡ ys
unfolding bytes_eq
bytes_eq_sound [] [] h = refl
bytes_eq_sound [] (y ∷ ys) h = cc
bytes_eq_sound (x ∷ xs) [] h = cc
bytes_eq_sound (x ∷ xs) (y ∷ ys) h = ground (arith, bytes_eq_sound xs ys)

bytes_eq_self : (xs : List ℕ) → bytes_eq xs xs ≡ true
unfolding bytes_eq
bytes_eq_self [] = refl
bytes_eq_self (x ∷ xs) = rw (==_self x) (bytes_eq_self xs)

pub bytes_eq_iff : (xs ys : List ℕ) → (bytes_eq xs ys ≡ true) ↔ (xs ≡ ys)
bytes_eq_iff xs ys =
    (bytes_eq_sound xs ys, λ e. subst (λ t. bytes_eq xs t ≡ true) e (bytes_eq_self xs))

ge_of_ltb-false : (a b : ℕ) → ltb a b ≡ false → b ≤ a
ge_of_ltb-false a b h = ground arith

and_left : (a b : Bool) → (a && b) ≡ true → a ≡ true
and_left a b h = ground arith

and_right : (a b : Bool) → (a && b) ≡ true → b ≡ true
and_right a b h = ground arith

eq_of_fields : {N : ℕ} {s t : HeaplessString N} → s.length ≡ t.length → s.slots ≡ t.slots → s ≡ t
eq_of_fields p q = λ i. record { length = p i; slots = q i }

module _ {N : ℕ} where
  pub str_eq_iff : (s t : HeaplessString N) → (str_eq s t ≡ true) ↔ (s ≡ t)
  unfolding str_eq
  str_eq_iff s t = (
    λ h.
        eq_of_fields (==→eq s.length t.length (and_left _ _ h))
          (bytes_eq_sound s.slots t.slots (and_right _ _ h)),
    λ e. subst (λ u. str_eq s u ≡ true) e (rw (==_self s.length) (bytes_eq_self s.slots)),
  )

  pub as_str-IsValid : (s : HeaplessString N) → IsValid s → as_str s ≡ take s.length s.slots
  unfolding as_str
  as_str-IsValid s h = rw h.text

  pub length-as_str : (s : HeaplessString N) → IsValid s → length (as_str s) ≡ s.length
  length-as_str s h = omega (arith, ap length (as_str-IsValid s h), length-take s.length s.slots)

  -- With room for N bytes, N below 256, a UTF-8 text of at most N bytes is stored whole and read
  -- back by as_str, and a longer one is refused.
  pub try_from_lem :
      (value : List ℕ)
      → N < u8_mod
      → is_utf8 value ≡ true
      → ((s : HeaplessString N) × (try_from value ≡ ok s)
          × IsValid s
          × (length value ≤ N)
          × (as_str s ≡ value))
        ⊎ ((try_from {N = N} value ≡ err push_error) × (N < length value))
  unfolding try_from
  try_from_lem value h u = elim (Bool-cases (ltb N (length value))) [
    | inl over ↦ inr (rw over, ltb→lt _ _ over)
    | inr room ↦
        let fit : length value ≤ N = ge_of_ltb-false _ _ room in
        let small : length value % u8_mod ≡ length value = omega arith in
        let zeros : List ℕ = replicate N 0 in
        let z : length zeros ≡ N = length-replicate N 0 in
        let slots : List ℕ = overwrite zeros 0 value in
        let whole : take (length value % u8_mod) slots ≡ value =
          rw (small, ← zero-add (length value)) (take-overwrite zeros 0 value (omega arith)) in
        let valid : IsValid {N = N} (record { length = length value % u8_mod; slots = slots }) =
          record {
            array = length-overwrite zeros 0 value ∙ z;
            within = omega arith;
            fits = h;
            text = ap is_utf8 whole ∙ u;
          } in
        inl (
          record { length = length value % u8_mod; slots = slots },
          rw room,
          valid,
          fit,
          as_str-IsValid _ valid ∙ whole,
        )
  ]

  -- A text of 256 bytes or more that fits into N bytes is accepted by try_from, but as_str then
  -- gives a shorter text.
  pub try_from_long :
      (value : List ℕ)
      → u8_mod ≤ length value
      → length value ≤ N
      → (s : HeaplessString N) × (try_from value ≡ ok s) × (length (as_str s) < length value)
  unfolding try_from as_str
  try_from_long value h k = (
    record { length = length value % u8_mod; slots = overwrite (replicate N 0) 0 value },
    rw (ge→ltb N (length value) k),
    shorter _,
  )
    where
      shorter :
          (b : List ℕ)
          → length (
              if is_utf8 (take (length value % u8_mod) b)
              then take (length value % u8_mod) b
              else [])
            < length value
      shorter b = elim (Bool-cases (is_utf8 (take (length value % u8_mod) b))) [
        | inl text ↦ rw text (omega (arith, length-take (length value % u8_mod) b))
        | inr not_text ↦ rw not_text (omega arith)
      ]

  -- On a valid text, push_str of bytes that keep it UTF-8 appends them if they fit and leaves it
  -- valid, and else returns an error and changes nothing.
  pub push_str_lem :
      (s : HeaplessString N) (bytes : List ℕ)
      → IsValid s
      → is_utf8 (as_str s ++ bytes) ≡ true
      → ((t : HeaplessString N) × (push_str s bytes ≡ done t tt)
          × IsValid t
          × (length (as_str s) + length bytes ≤ N)
          × (as_str t ≡ as_str s ++ bytes))
        ⊎ ((push_str s bytes ≡ fail s push_error) × (N < length (as_str s) + length bytes))
  unfolding push_str
  push_str_lem s bytes h u = elim (Bool-cases (ltb N (s.length + length bytes))) [
    | inl over ↦ inr (rw over, omega (tests, over, length-as_str s h))
    | inr room ↦
        let fit : s.length + length bytes ≤ N = ge_of_ltb-false _ _ room in
        let m : length bytes % u8_mod ≡ length bytes = omega arith in
        let small : leb u8_mod (s.length + length bytes % u8_mod) ≡ false =
          gt→leb _ _ (omega arith) in
        let slots = overwrite s.slots s.length bytes in
        let n = s.length + length bytes % u8_mod in
        let whole : take n slots ≡ as_str s ++ bytes =
          rw (m, as_str-IsValid s h) (take-overwrite s.slots s.length bytes (omega arith)) in
        let valid : IsValid {N = N} (record { length = n; slots = slots }) = record {
          array = length-overwrite s.slots s.length bytes ∙ h.array;
          within = omega arith;
          fits = h.fits;
          text = ap is_utf8 whole ∙ u;
        } in
        inl (
          record { length = n; slots = slots },
          rw (room, small),
          valid,
          omega (arith, length-as_str s h),
          as_str-IsValid _ valid ∙ whole,
        )
  ]
