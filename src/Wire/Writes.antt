-- ===== src/Wire/Writes.antt =====
-- Writing a field at an offset: what stands before it is kept, and the rest of the buffer follows.
use picobroker.Base.{
  ℕ, ◌+◌, ◌/◌, ◌%◌, ◌^◌, ◌≤◌, ◌<◌, ◌≡◌, refl, ap, ◌∙◌, sym, subst, false, List, [], ◌∷◌, ◌++◌,
  arith, ltb, lt→ltb, ge→ltb, length, drop, length-append, append_assoc, append-nil, length-drop,
  Bool-cases, inl, inr, ltb→lt, drop-append,
}
use picobroker.Base.Result.{ok}
use picobroker.Wire.{
  max_variable_length, store, store_all, store_u16, write_string, write_variable_length,
  write_length_at, slice_from, write_length_loop, variable_length_length,
}
use picobroker.Wire.Rounds.{write_last, write_more}
use picobroker.Wire.Fields.{
  length-length_bytes, u16_bytes, field_bytes, length_bytes, overwrite-append, drop-drop,
}

module _ (pre room : List ℕ) where
  pub store-at :
      (off v : ℕ)
      → off ≡ length pre
      → 1 ≤ length room
      → store (pre ++ room) off v ≡ ok ((pre ++ v ∷ []) ++ drop 1 room)
  unfolding store
  store-at off v e h = rw e (
      rw (lt→ltb (length pre) (length (pre ++ room)) (omega (arith, length-append pre room)))
        (ap ok (overwrite-append pre (v ∷ []) room h)))

  pub store_all-at :
      (off : ℕ) (bytes : List ℕ)
      → off ≡ length pre
      → length bytes ≤ length room
      → store_all (pre ++ room) off bytes ≡ ok ((pre ++ bytes) ++ drop (length bytes) room)
  unfolding store_all
  store_all-at off bytes e h = rw e (
      rw
        (ge→ltb (length (pre ++ room)) (length pre + length bytes)
          (omega (arith, length-append pre room)))
        (ap ok (overwrite-append pre bytes room h)))

module _ (pre room : List ℕ) where
  pub store_u16-at :
      (off n : ℕ)
      → off ≡ length pre
      → 2 ≤ length room
      → store_u16 (pre ++ room) off n ≡ ok ((pre ++ u16_bytes n) ++ drop 2 room)
  unfolding store_u16
  store_u16-at off n e h =
      let hi = n / 256 % 256 in
      rw (store-at pre room off hi e (omega arith)) (
        store-at (pre ++ hi ∷ []) (drop 1 room) (off + 1) (n % 256)
          (omega (arith, e, length-append pre (hi ∷ []))) (omega (arith, length-drop 1 room))
        ∙ ap ok (join hi))
    where
      join :
          (hi : ℕ)
          → ((pre ++ hi ∷ []) ++ n % 256 ∷ []) ++ drop 1 (drop 1 room)
            ≡ (pre ++ (hi ∷ n % 256 ∷ [])) ++ drop 2 room
      join hi =
          ap (λ t. t ++ drop 1 (drop 1 room)) (append_assoc pre (hi ∷ []) (n % 256 ∷ []))
          ∙ ap (λ t. (pre ++ (hi ∷ n % 256 ∷ [])) ++ t) (sym (drop-drop 1 1 room))

  pub write_string-at :
      (s : List ℕ) (off : ℕ)
      → off ≡ length pre
      → length s < 65536
      → 2 + length s ≤ length room
      → write_string s (pre ++ room) off
        ≡ ok ((pre ++ field_bytes s) ++ drop (2 + length s) room, off + 2 + length s)
  unfolding write_string
  write_string-at s off e small h =
      let fits : ltb (length (pre ++ room)) (off + 2 + length s) ≡ false =
        ge→ltb _ _ (omega (arith, e, length-append pre room)) in
      let m : length s % 2 ^ 16 ≡ length s = omega arith in
      rw (fits, m, store_u16-at off (length s) e (omega arith))
        (rw
          (store_all-at (pre ++ u16_bytes (length s)) (drop 2 room) (off + 2) s
            (omega (arith, e, length-append pre (u16_bytes (length s))))
            (omega (arith, length-drop 2 room)))
          (ap (λ t. ok (t, off + 2 + length s)) join))
    where
      join :
          ((pre ++ u16_bytes (length s)) ++ s) ++ drop (length s) (drop 2 room)
          ≡ (pre ++ field_bytes s) ++ drop (2 + length s) room
      join =
          ap (λ t. t ++ drop (length s) (drop 2 room)) (append_assoc pre (u16_bytes (length s)) s)
          ∙ ap (λ t. (pre ++ field_bytes s) ++ t) (sym (drop-drop 2 (length s) room))

module _ (size : ℕ) where
  write_one :
      (e n : ℕ) (room : List ℕ)
      → e < 128
      → 1 ≤ length room
      → write_length_loop size e n room ≡ ok (n + 1, e ∷ drop 1 room)
  write_one e n [] h l = absurd (omega arith)
  write_one e n (a ∷ room) h l = write_last size e n a room h

  write_two :
      (e n : ℕ) (room : List ℕ)
      → 128 ≤ e
      → e < 16384
      → 2 ≤ length room
      → write_length_loop size e n room ≡ ok (n + 1 + 1, (e % 128 + 128) ∷ e / 128 ∷ drop 2 room)
  write_two e n [] k h l = absurd (omega arith)
  write_two e n (a ∷ room) k h l =
      write_more size e n a (n + 1 + 1) room _ k
        (write_one (e / 128) (n + 1) room (omega arith) (omega arith))

  write_three :
      (e n : ℕ) (room : List ℕ)
      → 16384 ≤ e
      → e < 2097152
      → 3 ≤ length room
      → write_length_loop size e n room
        ≡ ok (n + 1 + 1 + 1, (e % 128 + 128) ∷ (e / 128 % 128 + 128) ∷ e / 128 / 128 ∷ drop 3 room)
  write_three e n [] k h l = absurd (omega arith)
  write_three e n (a ∷ room) k h l =
      write_more size e n a (n + 1 + 1 + 1) room _ (omega arith)
        (write_two (e / 128) (n + 1) room (omega arith) (omega arith) (omega arith))

  write_four :
      (e n : ℕ) (room : List ℕ)
      → 2097152 ≤ e
      → e ≤ max_variable_length
      → 4 ≤ length room
      → write_length_loop size e n room
        ≡ ok (
          n + 1 + 1 + 1 + 1,
          (e % 128 + 128)
              ∷ (e / 128 % 128 + 128)
              ∷ (e / 128 / 128 % 128 + 128)
              ∷ e / 128 / 128 / 128
              ∷ drop 4 room,
        )
  write_four e n [] k h l = absurd (omega arith)
  write_four e n (a ∷ room) k h l =
      write_more size e n a (n + 1 + 1 + 1 + 1) room _ (omega arith)
        (write_three (e / 128) (n + 1) room (omega arith) (omega arith) (omega arith))

pub write_variable_length_lem :
    (value : ℕ) (room : List ℕ)
    → value ≤ max_variable_length
    → variable_length_length value ≤ length room
    → write_variable_length value room
      ≡ ok (
        variable_length_length value,
        length_bytes value ++ drop (variable_length_length value) room,
      )
unfolding write_variable_length variable_length_length
write_variable_length_lem value room h l =
    rw (ge→ltb max_variable_length value h) (elim (Bool-cases (ltb value 128)) [
      | inl a ↦ rw a (write_one (length room) value 0 room (ltb→lt _ _ a) (rw a at l))
      | inr a ↦ elim (Bool-cases (ltb value 16384)) [
        | inl b ↦
            rw (a, b)
              (write_two (length room) value 0 room (ground arith) (ltb→lt _ _ b) (rw (a, b) at l))
        | inr b ↦ elim (Bool-cases (ltb value 2097152)) [
          | inl d ↦
              rw (a, b, d)
                (write_three (length room) value 0 room (ground arith) (ltb→lt _ _ d)
                  (rw (a, b, d) at l))
          | inr d ↦
              rw (a, b, d)
                (write_four (length room) value 0 room (ground arith) h (rw (a, b, d) at l))
        ]
      ]
    ])

drop-all : (xs : List ℕ) → drop (length xs) xs ≡ []
drop-all [] = refl
drop-all (x ∷ xs) = drop-all xs

module _ (pre room : List ℕ) where
  pub write_length-at :
      (value off : ℕ)
      → off ≡ length pre
      → value ≤ max_variable_length
      → variable_length_length value ≤ length room
      → write_length_at value (pre ++ room) off
        ≡ ok (
          (pre ++ length_bytes value) ++ drop (variable_length_length value) room,
          off + variable_length_length value,
        )
  unfolding write_length_at slice_from
  write_length-at value off e h l =
      let n = variable_length_length value in
      let inside : ltb (length (pre ++ room)) (length pre) ≡ false =
        ge→ltb _ _ (omega (arith, length-append pre room)) in
      let new = length_bytes value ++ drop n room in
      let whole : length new ≡ length room = omega (
        arith,
        length-append (length_bytes value) (drop n room),
        length-length_bytes value,
        length-drop n room,
      ) in
      rw (e, inside, drop-append pre room, write_variable_length_lem value room h l)
        (ap (λ t. ok (t, length pre + n))
          (overwrite-append pre new room (omega arith)
            ∙ subst (λ k. (pre ++ new) ++ drop k room ≡ (pre ++ length_bytes value) ++ drop n room)
                (sym whole)
                (rw (drop-all room) (
                  append-nil (pre ++ new)
                  ∙ sym (append_assoc pre (length_bytes value) (drop n room))))))
