-- ===== src/Text.antt =====
-- src/protocol/heapless.rs: the string with a fixed array of N bytes, of which the first `length`
-- are in use. `length` is a u8.
pub mod Laws
use picobroker.Base.{
  ℕ, zero, suc, ◌+◌, ◌-◌, ◌%◌, ◌≤◌, ◌<◌, ◌≡◌, Bool, true, false, ◌&&◌, List, [], ◌∷◌, ◌++◌, ltb,
  leb, ◌==◌, if◌then◌else◌, length, take, drop, replicate, overwrite, min,
}
use picobroker.Base.Result.{Outcome, ok, err, Step, done, fail, crash}
use picobroker.Base.Utf8.{is_utf8, encode_utf8}
use picobroker.Heapless.{PushError, push_error}

pub record HeaplessString (N : ℕ) : Type 0 where
  pub length : ℕ
  pub slots : List ℕ

abbrev pub u8_mod : ℕ
u8_mod = 256

-- The comparison of two arrays of bytes.
unfoldable pub bytes_eq : List ℕ → List ℕ → Bool
bytes_eq [] [] = true
bytes_eq [] (y ∷ ys) = false
bytes_eq (x ∷ xs) [] = false
bytes_eq (x ∷ xs) (y ∷ ys) = x == y && bytes_eq xs ys

module _ {N : ℕ} where
  unfoldable pub new : HeaplessString N
  new = record { length = 0; slots = replicate N 0 }

  pub try_from : List ℕ → Outcome PushError (HeaplessString N)
  try_from value =
      if ltb N (length value)
      then err push_error
      else ok (record { length = length value % u8_mod; slots = overwrite (replicate N 0) 0 value })

  unfoldable pub as_str : HeaplessString N → List ℕ
  as_str s = let bytes = take s.length s.slots in if is_utf8 bytes then bytes else []

  unfoldable pub len : HeaplessString N → ℕ
  len s = s.length

  pub is_empty : HeaplessString N → Bool
  is_empty s = s.length == 0

  pub clear : HeaplessString N → HeaplessString N
  clear s = record s { length = 0; slots = replicate N 0 }

  pub push_str : HeaplessString N → List ℕ → Step (HeaplessString N) PushError (Unit {0})
  push_str s bytes =
      if ltb N (s.length + length bytes)
      then fail s push_error
      else if leb u8_mod (s.length + length bytes % u8_mod)
      then crash
      else done
          (record s {
            slots = overwrite s.slots s.length bytes;
            length = s.length + length bytes % u8_mod;
          })
          tt

  pub push : HeaplessString N → ℕ → Step (HeaplessString N) PushError (Unit {0})
  push s ch =
      let bytes = encode_utf8 ch in
      if ltb N (s.length + length bytes)
      then fail s push_error
      else if leb u8_mod (s.length + length bytes)
      then crash
      else done
          (record s { slots = overwrite s.slots s.length bytes; length = s.length + length bytes })
          tt

  -- `fmt::Write`: what does not fit is cut off, and no error is returned.
  pub write_str : {E : Type 0} → HeaplessString N → List ℕ → Step (HeaplessString N) E (Unit {0})
  write_str s bytes =
      let to_copy = min (length bytes) (N - s.length) in
      if leb u8_mod (s.length + to_copy % u8_mod)
      then crash
      else done
          (record s {
            slots = overwrite s.slots s.length (take to_copy bytes);
            length = s.length + to_copy % u8_mod;
          })
          tt

  -- The derived `PartialEq`.
  pub str_eq : HeaplessString N → HeaplessString N → Bool
  unfolding bytes_eq
  str_eq s t = s.length == t.length && bytes_eq s.slots t.slots

-- The bytes in use are UTF-8, and N fits a u8.
pub record IsValid {N : ℕ} (s : HeaplessString N) : Type 0 where
  pub array : length s.slots ≡ N
  pub within : s.length ≤ N
  pub fits : N < u8_mod
  pub text : is_utf8 (take s.length s.slots) ≡ true
