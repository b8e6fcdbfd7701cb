-- ===== src/Tokio/Io/Lengths.antt =====
-- `parse_remaining_length` beside `read_variable_length` of the library.
use picobroker.Base.{
  ℕ, ◌+◌, ◌*◌, ◌%◌, ◌/◌, ◌<◌, ◌≡◌, refl, ap, arith, false, List, [], ◌∷◌, ltb, ge→ltb, ◌==◌,
  Bool-cases, inl, inr, length,
}
use picobroker.Base.Result.{Outcome, ok, err, panic}
use picobroker.Protocol.{ProtocolError, invalid_packet_length}
use picobroker.Wire.{max_variable_length, read_variable_length, read_length_loop}
use picobroker.Tokio.Io.{parse_length_loop, parse_remaining_length}

-- Both return the same result, or both return an error, possibly another one.
abbrev pub SameResult : {A : Type 0} → Outcome ProtocolError A → Outcome ProtocolError A → Type 0
SameResult (ok x) (ok y) = x ≡ y
SameResult (err _) (err _) = Unit {0}
SameResult panic panic = Unit {0}
SameResult _ _ = ⊥

module _ (total total' : ℕ) where
  abbrev Agree : ℕ → ℕ → Type 0
  Agree multiplier n =
      (bytes : List ℕ) (value : ℕ)
      → value < multiplier
      → SameResult (parse_length_loop total bytes (n + 1) multiplier value)
          (read_length_loop total' bytes multiplier value n)

  -- The library's loop reads no fifth byte.
  fifth :
      (bytes : List ℕ) (value : ℕ)
      → SameResult {A = ℕ × ℕ}
          (err (invalid_packet_length 4 5))
          (read_length_loop total' bytes 268435456 value 4)
  unfolding read_length_loop
  fifth [] value = tt
  fifth (byte ∷ rest) value =
      elim (Bool-cases (ltb max_variable_length (value + byte % 128 * 268435456))) [
        | inl large ↦ rw large tt
        | inr small ↦ rw small tt
      ]

  last_round : Agree 2097152 3
  unfolding parse_length_loop read_length_loop
  last_round [] value h = tt
  last_round (byte ∷ rest) value h =
      let small : ltb max_variable_length (value + byte % 128 * 2097152) ≡ false =
        ge→ltb _ _ (omega arith) in
      elim (Bool-cases (byte / 128 % 2 == 0)) [
        | inl stop ↦ rw (stop, small) refl
        | inr more ↦ rw (more, small) (fifth rest (value + byte % 128 * 2097152))
      ]

  third_round : Agree 16384 2
  unfolding parse_length_loop read_length_loop
  third_round [] value h = tt
  third_round (byte ∷ rest) value h =
      let small : ltb max_variable_length (value + byte % 128 * 16384) ≡ false =
        ge→ltb _ _ (omega arith) in
      elim (Bool-cases (byte / 128 % 2 == 0)) [
        | inl stop ↦ rw (stop, small) refl
        | inr more ↦ rw (more, small) (last_round rest (value + byte % 128 * 16384) (omega arith))
      ]

  second_round : Agree 128 1
  unfolding parse_length_loop read_length_loop
  second_round [] value h = tt
  second_round (byte ∷ rest) value h =
      let small : ltb max_variable_length (value + byte % 128 * 128) ≡ false =
        ge→ltb _ _ (omega arith) in
      elim (Bool-cases (byte / 128 % 2 == 0)) [
        | inl stop ↦ rw (stop, small) refl
        | inr more ↦ rw (more, small) (third_round rest (value + byte % 128 * 128) (omega arith))
      ]

  first_round : Agree 1 0
  unfolding parse_length_loop read_length_loop
  first_round [] value h = tt
  first_round (byte ∷ rest) value h =
      let small : ltb max_variable_length (value + byte % 128 * 1) ≡ false =
        ge→ltb _ _ (omega arith) in
      elim (Bool-cases (byte / 128 % 2 == 0)) [
        | inl stop ↦ rw (stop, small) refl
        | inr more ↦ rw (more, small) (second_round rest (value + byte % 128 * 1) (omega arith))
      ]

-- On any bytes behind a first one, the parse_remaining_length of the server and the
-- read_variable_length of the library return the same value and number of bytes, or both an
-- error.
pub parse-read_variable_length :
    (first : ℕ) (bytes : List ℕ)
    → SameResult (parse_remaining_length (first ∷ bytes)) (read_variable_length bytes)
unfolding parse_remaining_length read_variable_length
parse-read_variable_length first bytes =
    first_round (length (first ∷ bytes)) (length bytes) bytes 0 (omega arith)

-- Where the library's function returns Ok, the server's returns the same.
pub parse-ok :
    (first : ℕ) (bytes : List ℕ) {r : ℕ × ℕ}
    → read_variable_length bytes ≡ ok r
    → parse_remaining_length (first ∷ bytes) ≡ ok r
parse-ok first bytes {r} h =
    same (parse_remaining_length (first ∷ bytes)) (rw h at (parse-read_variable_length first bytes))
  where
    same : (m : Outcome ProtocolError (ℕ × ℕ)) → SameResult m (ok r) → m ≡ ok r
    same (ok x) e = ap ok e
    same (err x) e = absurd e
    same panic e = absurd e
