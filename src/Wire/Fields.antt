-- ===== src/Wire/Fields.antt =====
-- The bytes of a field on the wire, and slices of a list by what stands at an offset.
use picobroker.Base.{
  ℕ, zero, suc, ◌+◌, ◌/◌, ◌%◌, ◌≤◌, ◌≡◌, refl, ap, ◌∙◌, sym, List, [], ◌∷◌, ◌++◌, arith, ltb,
  length, drop, get_elem?, overwrite, if◌then◌else◌, length-append, append_assoc, append-nil,
  set-append,
}
use picobroker.Wire.{variable_length_length}

-- A u16, high byte first.
abbrev pub u16_bytes : ℕ → List ℕ
u16_bytes n = n / 256 % 256 ∷ n % 256 ∷ []

-- A text or a binary field behind its length.
abbrev pub field_bytes : List ℕ → List ℕ
field_bytes s = u16_bytes (length s) ++ s

-- A variable length: seven bits a byte, the lowest first.
abbrev pub length_bytes : ℕ → List ℕ
length_bytes n =
    if ltb n 128
    then n ∷ []
    else if ltb n 16384
    then (n % 128 + 128) ∷ n / 128 ∷ []
    else if ltb n 2097152
    then (n % 128 + 128) ∷ (n / 128 % 128 + 128) ∷ n / 128 / 128 ∷ []
    else (n % 128 + 128)
      ∷ (n / 128 % 128 + 128)
      ∷ (n / 128 / 128 % 128 + 128)
      ∷ n / 128 / 128 / 128
      ∷ []

pub length-length_bytes : (n : ℕ) → length (length_bytes n) ≡ variable_length_length n
unfolding variable_length_length
length-length_bytes n = ground arith

module _ {ℓ} {A : Type ℓ} where
  pub get_elem?-drop : (n i : ℕ) (xs : List A) → get_elem? xs (n + i) ≡ get_elem? (drop n xs) i
  get_elem?-drop zero i xs = let e : 0 + i ≡ i = omega arith in rw e refl
  get_elem?-drop (suc n) i [] = refl
  get_elem?-drop (suc n) i (x ∷ xs) =
      let e : suc n + i ≡ suc (n + i) = omega arith in rw e (get_elem?-drop n i xs)

  drop-nil : (n : ℕ) → drop {A = A} n [] ≡ []
  drop-nil zero = refl
  drop-nil (suc n) = refl

  pub drop-drop : (n k : ℕ) (xs : List A) → drop (n + k) xs ≡ drop k (drop n xs)
  drop-drop zero k xs = let e : 0 + k ≡ k = omega arith in rw e refl
  drop-drop (suc n) k [] = drop-nil (suc n + k) ∙ sym (drop-nil k)
  drop-drop (suc n) k (x ∷ xs) =
      let e : suc n + k ≡ suc (n + k) = omega arith in rw e (drop-drop n k xs)

  pub overwrite-append :
      (pre ys room : List A)
      → length ys ≤ length room
      → overwrite (pre ++ room) (length pre) ys ≡ (pre ++ ys) ++ drop (length ys) room
  overwrite-append pre [] room h = ap (λ t. t ++ room) (sym (append-nil pre))
  overwrite-append pre (y ∷ ys) [] h = absurd (omega arith)
  overwrite-append pre (y ∷ ys) (x ∷ room) h =
      let longer : length (pre ++ y ∷ []) ≡ suc (length pre) =
        omega (arith, length-append pre (y ∷ [])) in
      ap (λ t. overwrite t (suc (length pre)) ys)
        (set-append pre room x y ∙ sym (append_assoc pre (y ∷ []) room))
      ∙ ap (λ k. overwrite ((pre ++ y ∷ []) ++ room) k ys) (sym longer)
      ∙ overwrite-append (pre ++ y ∷ []) ys room (omega arith)
      ∙ ap (λ t. t ++ drop (length ys) room) (append_assoc pre (y ∷ []) ys)
