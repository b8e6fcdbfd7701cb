-- ===== src/Heapless.antt =====
-- src/protocol/heapless.rs: the vector with a fixed array of N slots, of which the first `length`
-- are in use. `length` is a u16; arithmetic that would overflow is a panic.
pub mod Slots
pub mod Laws
use picobroker.Base.{
  ℕ, zero, suc, ◌+◌, ◌-◌, ◌%◌, ◌^◌, ◌≤◌, ◌<◌, ◌≡◌, Bool, not, ◌&&◌, Option, none, some, List, ◌++◌,
  ltb, leb, ◌==◌, if◌then◌else◌, length, get_elem?, set, take, drop, replicate, modify_first,
  overwrite,
}
use picobroker.Base.Result.{Step, done, fail, crash}

pub data PushError : Type 0 where
  push_error : PushError

pub record HeaplessVec (T : Type 0) (N : ℕ) : Type 0 where
  pub length : ℕ
  pub slots : List T

abbrev pub u16_mod : ℕ
u16_mod = 2 ^ 16

-- The loop of `retain`: the rounds left, the read and the write index, and the array.
pub retain_loop : {T : Type 0} → (T → Bool) → ℕ → ℕ → ℕ → List T → ℕ × List T
retain_loop f zero read_idx write_idx slots = (write_idx, slots)
retain_loop f (suc rounds) read_idx write_idx slots = elim (get_elem? slots read_idx) [
  | none ↦ (write_idx, slots)
  | some x ↦
      retain_loop f rounds (suc read_idx) (if f x then suc write_idx else write_idx)
        (if f x && not (write_idx == read_idx) then set slots write_idx x else slots)
]

-- The loop of `remove` and of `dequeue_front`: `rounds` assignments `data[i] = data[i + 1]`.
pub shift_loop : {T : Type 0} → ℕ → ℕ → List T → List T
shift_loop zero i slots = slots
shift_loop (suc rounds) i slots = elim (get_elem? slots (suc i)) [
  | none ↦ slots
  | some x ↦ shift_loop rounds (suc i) (set slots i x)
]

module _ {T : Type 0} {N : ℕ} where
  -- `d` is `T::default()`.
  pub new : T → HeaplessVec T N
  new d = record { length = 0; slots = replicate N d }

  pub len : HeaplessVec T N → ℕ
  len v = v.length

  pub is_empty : HeaplessVec T N → Bool
  is_empty v = v.length == 0

  pub clear : HeaplessVec T N → HeaplessVec T N
  clear v = record v { length = 0 }

  -- Also `deref` and the iteration by reference.
  unfoldable pub as_slice : HeaplessVec T N → List T
  as_slice v = take v.length v.slots

  pub push : HeaplessVec T N → T → Step (HeaplessVec T N) PushError (Unit {0})
  push v item =
      if leb N v.length
      then fail v push_error
      else if leb u16_mod (v.length + 1)
      then crash
      else done (record v { slots = set v.slots v.length item; length = v.length + 1 }) tt

  pub pop : T → HeaplessVec T N → HeaplessVec T N × Option T
  pop d v = if v.length == 0 then (v, none) else (
    record v { length = v.length - 1; slots = set v.slots (v.length - 1) d },
    get_elem? v.slots (v.length - 1),
  )

  pub get : HeaplessVec T N → ℕ → Option T
  get v index = if ltb index v.length then get_elem? v.slots index else none

  -- `slice.len() as u16` drops the high bits.
  pub extend_from_slice : HeaplessVec T N → List T → Step (HeaplessVec T N) PushError (Unit {0})
  extend_from_slice v slice =
      if ltb N (v.length + length slice)
      then fail v push_error
      else if leb u16_mod (v.length + length slice % u16_mod)
      then crash
      else done
          (record v {
            slots = overwrite v.slots v.length slice;
            length = v.length + length slice % u16_mod;
          })
          tt

  pub retain : (T → Bool) → HeaplessVec T N → HeaplessVec T N
  unfolding retain_loop
  retain f v =
      let r : ℕ × List T = retain_loop f v.length 0 0 v.slots in
      record v { length = r.0 % u16_mod; slots = r.1 }

  pub remove : {E : Type 0} → HeaplessVec T N → ℕ → Step (HeaplessVec T N) E (Unit {0})
  unfolding shift_loop
  remove v index =
      if leb v.length index
      then crash
      else done
          (record v {
            slots = shift_loop (v.length - 1 - index) index v.slots;
            length = v.length - 1;
          })
          tt

  pub dequeue_front : HeaplessVec T N → HeaplessVec T N × Option T
  unfolding shift_loop
  dequeue_front v = if v.length == 0 then (v, none) else (
    record v { slots = shift_loop (v.length - 1) 0 v.slots; length = v.length - 1 },
    get_elem? v.slots 0,
  )

  pub front : HeaplessVec T N → Option T
  front v = if v.length == 0 then none else get_elem? v.slots 0

  -- `iter_mut().find(f)` and a write `g` through the reference that it returns.
  pub modify : (T → Bool) → (T → T) → HeaplessVec T N → HeaplessVec T N
  modify f g v = record v {
    slots = modify_first f g (take v.length v.slots) ++ drop v.length v.slots;
  }

  -- `iter_mut()` to the end: the elements in use are replaced, one for one.
  pub write_slice : HeaplessVec T N → List T → HeaplessVec T N
  write_slice v items = record v { slots = items ++ drop v.length v.slots }

-- N slots, of which `length` are in use, and N fits a u16.
pub record IsValid {T : Type 0} {N : ℕ} (v : HeaplessVec T N) : Type 0 where
  pub array : length v.slots ≡ N
  pub within : v.length ≤ N
  pub fits : N < u16_mod
