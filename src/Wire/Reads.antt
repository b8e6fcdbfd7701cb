-- ===== src/Wire/Reads.antt =====
-- Reading a field at an offset where its bytes stand.
use picobroker.Base.{
  ℕ, ◌+◌, ◌-◌, ◌*◌, ◌/◌, ◌%◌, ◌≤◌, ◌<◌, ◌≡◌, refl, ap, ◌∙◌, true, some, List, [], ◌∷◌, ◌++◌, arith,
  ltb, ltb→lt, ge→ltb, length, drop, get_elem?, length-append, length-drop, Bool-cases, inl, inr,
  drop-append, take-append, append_assoc,
}
use picobroker.Base.Result.{ok}
use picobroker.Base.Utf8.{is_utf8}
use picobroker.Wire.{
  max_variable_length, byte_at, slice, slice_from, read_u16, read_string, read_binary,
  read_variable_length, variable_length_length,
}
use picobroker.Wire.Rounds.{read_last, read_more}
use picobroker.Wire.Fields.{u16_bytes, field_bytes, length_bytes, get_elem?-drop, drop-drop}

-- The bytes that stand at an offset, and what follows them.
abbrev pub StandsAt : List ℕ → ℕ → List ℕ → List ℕ → Type 0
StandsAt bytes off field rest = drop off bytes ≡ field ++ rest

pub StandsAt-after :
    (bytes : List ℕ) (off : ℕ) (field rest : List ℕ)
    → StandsAt bytes off field rest
    → drop (off + length field) bytes ≡ rest
StandsAt-after bytes off field rest h =
    drop-drop off (length field) bytes ∙ ap (drop (length field)) h ∙ drop-append field rest

module _ (bytes rest : List ℕ) (off : ℕ) where
  pub byte_at-StandsAt : (x : ℕ) → StandsAt bytes off (x ∷ []) rest → byte_at bytes off ≡ ok x
  unfolding byte_at
  byte_at-StandsAt x h =
      let e : get_elem? bytes (off + 0) ≡ some x =
        get_elem?-drop off 0 bytes ∙ ap (λ t. get_elem? t 0) h in
      let z : off + 0 ≡ off = omega arith in rw (byte_at, rw z at e) refl

  pub StandsAt-length :
      (field : List ℕ)
      → StandsAt bytes off field rest
      → off ≤ length bytes
      → off + length field + length rest ≡ length bytes
  StandsAt-length field h l =
      omega (arith, length-drop off bytes, ap length h, length-append field rest)

  pub slice_from-StandsAt :
      (field : List ℕ)
      → StandsAt bytes off field rest
      → off ≤ length bytes
      → slice_from bytes off ≡ ok (field ++ rest)
  unfolding slice_from
  slice_from-StandsAt field h l = rw (ge→ltb (length bytes) off l, h) refl

  pub slice-StandsAt :
      (field : List ℕ)
      → StandsAt bytes off field rest
      → off ≤ length bytes
      → slice bytes off (off + length field) ≡ ok field
  unfolding slice
  slice-StandsAt field h l =
      let k : off + length field - off ≡ length field = omega arith in
      rw
        (
          ge→ltb (off + length field) off (omega arith),
          ge→ltb (length bytes) (off + length field) (omega (arith, StandsAt-length field h l)),
          k,
          h,
          take-append field rest,
        )
        refl

module _ (bytes rest : List ℕ) (off : ℕ) where
  pub read_u16-StandsAt :
      (n : ℕ) → StandsAt bytes off (u16_bytes n) rest → n < 65536 → read_u16 bytes off ≡ ok n
  unfolding read_u16
  read_u16-StandsAt n h l =
      let hi = byte_at-StandsAt bytes (n % 256 ∷ rest) off (n / 256 % 256) h in
      let after = StandsAt-after bytes off (n / 256 % 256 ∷ []) (n % 256 ∷ rest) h in
      let lo = byte_at-StandsAt bytes rest (off + 1) (n % 256) after in
      rw (hi, lo) (ap ok (omega arith))

module _ (bytes rest : List ℕ) (off : ℕ) (s : List ℕ) where
  after_length : StandsAt bytes off (field_bytes s) rest → StandsAt bytes (off + 2) s rest
  after_length h =
      StandsAt-after bytes off (u16_bytes (length s)) (s ++ rest)
        (h ∙ append_assoc (u16_bytes (length s)) s rest)

  pub read_string-StandsAt :
      StandsAt bytes off (field_bytes s) rest
      → off ≤ length bytes
      → length s < 65536
      → is_utf8 s ≡ true
      → read_string bytes off ≡ ok (s, off + 2 + length s)
  unfolding read_string
  read_string-StandsAt h l small utf =
      let whole = StandsAt-length bytes rest off (field_bytes s) h l in
      let n =
        read_u16-StandsAt bytes (s ++ rest) off (length s)
          (h ∙ append_assoc (u16_bytes (length s)) s rest) small in
      let sl = slice-StandsAt bytes rest (off + 2) s (after_length h) (omega (arith, whole)) in
      rw
        (
          ge→ltb (length bytes) (off + 2) (omega (arith, whole)),
          n,
          sl,
          ge→ltb (length bytes) (off + 2 + length s) (omega (arith, whole)),
          utf,
        )
        refl

  pub read_binary-StandsAt :
      StandsAt bytes off (field_bytes s) rest
      → off ≤ length bytes
      → length s < 65536
      → read_binary bytes off ≡ ok (s, off + 2 + length s)
  unfolding read_binary
  read_binary-StandsAt h l small =
      let whole = StandsAt-length bytes rest off (field_bytes s) h l in
      let n =
        read_u16-StandsAt bytes (s ++ rest) off (length s)
          (h ∙ append_assoc (u16_bytes (length s)) s rest) small in
      let sl = slice-StandsAt bytes rest (off + 2) s (after_length h) (omega (arith, whole)) in
      rw
        (
          ge→ltb (length bytes) (off + 2) (omega (arith, whole)),
          n,
          sl,
          ge→ltb (length bytes) (off + 2 + length s) (omega (arith, whole)),
        )
        refl

module _ (v : ℕ) (rest : List ℕ) where
  two_read : v < 16384 → read_variable_length ((v % 128 + 128) ∷ v / 128 ∷ rest) ≡ ok (v, 2)
  unfolding read_variable_length
  two_read h =
      let total = length ((v % 128 + 128) ∷ v / 128 ∷ rest) in
      read_more total (v / 128 ∷ rest) (v % 128) 1 0 0 (omega arith) (omega arith) (omega arith)
      ∙ read_last total rest (v / 128) 128 (0 + v % 128 * 1) 1 (omega arith) (omega arith)
          (omega arith)
      ∙ ap (λ k. ok (k, 2)) (omega arith)

  three_read :
      v < 2097152
      → read_variable_length ((v % 128 + 128) ∷ (v / 128 % 128 + 128) ∷ v / 128 / 128 ∷ rest)
        ≡ ok (v, 3)
  unfolding read_variable_length
  three_read h =
      let v1 = v / 128 in
      let v2 = v1 / 128 in
      let total = length ((v % 128 + 128) ∷ (v1 % 128 + 128) ∷ v2 ∷ rest) in
      read_more total ((v1 % 128 + 128) ∷ v2 ∷ rest) (v % 128) 1 0 0 (omega arith) (omega arith)
        (omega arith)
      ∙ read_more total (v2 ∷ rest) (v1 % 128) 128 (0 + v % 128 * 1) 1 (omega arith) (omega arith)
          (omega arith)
      ∙ read_last total rest v2 16384 (0 + v % 128 * 1 + v1 % 128 * 128) 2 (omega arith)
          (omega arith) (omega arith)
      ∙ ap (λ k. ok (k, 3)) (omega arith)

  four_read :
      v ≤ max_variable_length
      → read_variable_length (
          (v % 128 + 128)
          ∷ (v / 128 % 128 + 128)
          ∷ (v / 128 / 128 % 128 + 128)
          ∷ v / 128 / 128 / 128
          ∷ rest)
        ≡ ok (v, 4)
  unfolding read_variable_length
  four_read h =
      let v1 = v / 128 in
      let v2 = v1 / 128 in
      let v3 = v2 / 128 in
      let total = length ((v % 128 + 128) ∷ (v1 % 128 + 128) ∷ (v2 % 128 + 128) ∷ v3 ∷ rest) in
      read_more total ((v1 % 128 + 128) ∷ (v2 % 128 + 128) ∷ v3 ∷ rest) (v % 128) 1 0 0
        (omega arith) (omega arith) (omega arith)
      ∙ read_more total ((v2 % 128 + 128) ∷ v3 ∷ rest) (v1 % 128) 128 (0 + v % 128 * 1) 1
          (omega arith) (omega arith) (omega arith)
      ∙ read_more total (v3 ∷ rest) (v2 % 128) 16384 (0 + v % 128 * 1 + v1 % 128 * 128) 2
          (omega arith) (omega arith) (omega arith)
      ∙ read_last total rest v3 2097152 (0 + v % 128 * 1 + v1 % 128 * 128 + v2 % 128 * 16384) 3
          (omega arith) (omega arith) (omega arith)
      ∙ ap (λ k. ok (k, 4)) (omega arith)

pub read_variable_length_lem :
    (v : ℕ) (rest : List ℕ)
    → v ≤ max_variable_length
    → read_variable_length (length_bytes v ++ rest) ≡ ok (v, variable_length_length v)
unfolding read_variable_length variable_length_length
read_variable_length_lem v rest h = elim (Bool-cases (ltb v 128)) [
  | inl a ↦ rw a (
      read_last (length (v ∷ rest)) rest v 1 0 0 (ltb→lt _ _ a) (omega arith) (omega arith)
      ∙ ap (λ k. ok (k, 1)) (omega arith))
  | inr a ↦ elim (Bool-cases (ltb v 16384)) [
    | inl b ↦ rw (a, b) (two_read v rest (ltb→lt _ _ b))
    | inr b ↦ elim (Bool-cases (ltb v 2097152)) [
      | inl d ↦ rw (a, b, d) (three_read v rest (ltb→lt _ _ d))
      | inr d ↦ rw (a, b, d) (four_read v rest h)
    ]
  ]
]
