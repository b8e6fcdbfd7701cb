-- ===== src/Wire/Lengths.antt =====
-- The variable length, written and read back.
use picobroker.Base.{◌<◌, lt→ltb}
use picobroker.Base.{ℕ, ◌≤◌, ◌≡◌, refl, List, ◌∷◌, arith, drop}
use picobroker.Base.Result.{Outcome, ok, err, panic}
use picobroker.Protocol.{ProtocolError}
use picobroker.Wire.{
  max_variable_length, write_variable_length, read_variable_length, variable_length_length,
}
use picobroker.Wire.Writes.{write_variable_length_lem}
use picobroker.Wire.Reads.{read_variable_length_lem}

-- The number that was written is read back, and it takes as many bytes as were written.
abbrev pub ReadsBack : ℕ → Outcome ProtocolError (ℕ × List ℕ) → Type 0
ReadsBack value (ok (n, buffer)) =
    (n ≡ variable_length_length value) × (read_variable_length buffer ≡ ok (value, n))
ReadsBack value (err e) = ⊥
ReadsBack value panic = ⊥

pub variable_length_length-le : (n : ℕ) → variable_length_length n ≤ 4
unfolding variable_length_length
variable_length_length-le n = ground arith

pub variable_length_length-pos : (n : ℕ) → 1 ≤ variable_length_length n
unfolding variable_length_length
variable_length_length-pos n = ground arith

pub variable_length_length-small : (n : ℕ) → n < 128 → variable_length_length n ≡ 1
unfolding variable_length_length
variable_length_length-small n h = rw (lt→ltb n 128 h) refl

-- A number up to 268435455 that write_variable_length writes into a buffer of at least 4 bytes
-- is read back by read_variable_length, with as many bytes read as were written, which is what
-- variable_length_length says.
pub read-write_variable_length :
    (value a b d e : ℕ) (rest : List ℕ)
    → value ≤ max_variable_length
    → ReadsBack value (write_variable_length value (a ∷ b ∷ d ∷ e ∷ rest))
read-write_variable_length value a b d e rest h =
    let room = a ∷ b ∷ d ∷ e ∷ rest in
    rw (write_variable_length_lem value room h (omega (arith, variable_length_length-le value)))
      (refl, read_variable_length_lem value (drop (variable_length_length value) room) h)
