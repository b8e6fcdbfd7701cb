-- ===== src/Samples/Stores.antt =====
-- The vector and the text on concrete values.
use picobroker.Base.{
  ℕ, ◌≤◌, ◌<◌, ◌≡◌, refl, ◌⊎◌, List, [], ◌∷◌, arith, length, select, ltb, erase_at, replicate, true,
}
use picobroker.Base.Result.{done, ok, err}
use picobroker.Base.Utf8.{is_utf8}
use picobroker.Heapless
use picobroker.Heapless.{
  HeaplessVec, push_error, push, dequeue_front, extend_from_slice, retain, remove, pop, as_slice,
}
use picobroker.Heapless.Laws.{Dequeues, dequeue_front-Dequeues, retain_lem, remove_lem}
use picobroker.Text
use picobroker.Text.{HeaplessString, try_from, as_str, push_str}
use picobroker.Text.Laws.{try_from_lem, try_from_long}
use picobroker.Samples.Data.{two_of_three, two_of_three-IsValid, name_a}

dequeue_front_example : Dequeues two_of_three (dequeue_front two_of_three)
dequeue_front_example = dequeue_front-Dequeues two_of_three two_of_three-IsValid

remove_example :
    (w : HeaplessVec ℕ 3) × (remove {E = ℕ} two_of_three 0 ≡ done w tt)
    × Heapless.IsValid w
    × (as_slice w ≡ erase_at 0 (as_slice two_of_three))
remove_example = remove_lem two_of_three 0 two_of_three-IsValid (omega arith)

retain_example :
    Heapless.IsValid (retain (ltb 5) two_of_three)
    × (as_slice (retain (ltb 5) two_of_three) ≡ select (ltb 5) (as_slice two_of_three))
retain_example = retain_lem (ltb 5) two_of_three two_of_three-IsValid

abbrev text_b : List ℕ
text_b = b'b' ∷ []

abbrev long_text : List ℕ
long_text = replicate 256 b'a'

name_a-IsValid : Text.IsValid name_a
unfolding is_utf8
name_a-IsValid = record { array = refl; within = omega arith; fits = omega arith; text = refl }

bytes_b : is_utf8 text_b ≡ true
unfolding is_utf8
bytes_b = refl

try_from_example :
    ((s : HeaplessString 4) × (try_from text_b ≡ ok s)
      × Text.IsValid s
      × (length text_b ≤ 4)
      × (as_str s ≡ text_b))
    ⊎ ((try_from {N = 4} text_b ≡ err push_error) × (4 < length text_b))
try_from_example = try_from_lem text_b (omega arith) bytes_b

try_from_long_example :
    (s : HeaplessString 300) × (try_from long_text ≡ ok s) × (length (as_str s) < length long_text)
try_from_long_example = try_from_long long_text (omega arith) (omega arith)
