-- ===== src/Wire/Rounds.antt =====
-- One round of the loops that read and write a variable length.
use picobroker.Base.{
  ℕ, ◌+◌, ◌*◌, ◌/◌, ◌%◌, ◌<◌, ◌≤◌, ◌≡◌, refl, false, List, ◌∷◌, ◌==◌, arith, ge→ltb, ne→==,
}
use picobroker.Base.Result.{ok}
use picobroker.Wire.{max_variable_length, write_length_loop, read_length_loop}

module _ (total : ℕ) (rest : List ℕ) where
  pub read_last :
      (b m v n : ℕ)
      → b < 128
      → v + b * m ≤ max_variable_length
      → m * 128 ≤ 268_435_456
      → read_length_loop total (b ∷ rest) m v n ≡ ok (v + b * m, n + 1)
  unfolding read_length_loop
  read_last b m v n h k l =
      let low : b % 128 ≡ b = omega arith in
      let flag : b / 128 % 2 ≡ 0 = omega arith in
      rw (low, ge→ltb max_variable_length (v + b * m) k, ge→ltb 268_435_456 (m * 128) l, flag) refl

  pub read_more :
      (b m v n : ℕ)
      → b < 128
      → v + b * m ≤ max_variable_length
      → m * 128 ≤ 268_435_456
      → read_length_loop total ((b + 128) ∷ rest) m v n
        ≡ read_length_loop total rest (m * 128) (v + b * m) (n + 1)
  unfolding read_length_loop
  read_more b m v n h k l =
      let low : (b + 128) % 128 ≡ b = omega arith in
      let flag : (b + 128) / 128 % 2 ≡ 1 = omega arith in
      rw (low, ge→ltb max_variable_length (v + b * m) k, ge→ltb 268_435_456 (m * 128) l, flag) refl

pub write_last :
    (size e n old : ℕ) (rest : List ℕ)
    → e < 128
    → write_length_loop size e n (old ∷ rest) ≡ ok (n + 1, e ∷ rest)
unfolding write_length_loop
write_last size e n old rest h =
    let low : e % 128 ≡ e = omega arith in
    let done : e / 128 ≡ 0 = omega arith in rw (low, done) refl

pub write_more :
    (size e n old k : ℕ) (rest rest' : List ℕ)
    → 128 ≤ e
    → write_length_loop size (e / 128) (n + 1) rest ≡ ok (k, rest')
    → write_length_loop size e n (old ∷ rest) ≡ ok (k, (e % 128 + 128) ∷ rest')
unfolding write_length_loop
write_more size e n old k rest rest' h w =
    let left_over : (e / 128 == 0) ≡ false = ne→== (e / 128) 0 (λ z. ground arith) in
    rw (left_over, w) refl
